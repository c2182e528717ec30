-- ===== src/Pdu/Body.antt =====
-- The classes of src/ax_interface/pdu_implementations.py as one data type, and their constructors
-- from a payload.
use sonic_snmpagent.Prelude.{
  ℕ, zero, suc, ◌-◌, List, [], ◌∷◌, length, take, drop, Option, none, some, Result, ok, err,
  out_of_fuel, ◌>>=◌, ◌==◌, if◌then◌else◌,
}
use sonic_snmpagent.Struct.{Endian, byte, half, long, text, unpack}
use sonic_snmpagent.Encodings.Oid
use sonic_snmpagent.Encodings.Oid.{ObjectIdentifier}
use sonic_snmpagent.Encodings.Octets
use sonic_snmpagent.Encodings.Octets.{OctetString}
use sonic_snmpagent.Encodings.Range.{SearchRange}
use sonic_snmpagent.Encodings.Value
use sonic_snmpagent.Encodings.Value.{ValueRepresentation}
use sonic_snmpagent.Pdu.Header.{PduHeader, endianness, flag_non_default_context}
use sonic_snmpagent.Pdu.Items.{read_ranges, read_bindings}

-- The attributes that each class adds to the header and the trailing bytes.
pub data Body : Type 0 where
  open_body :
      (timeout : ℕ) (reserved : List ℕ) (oid : ObjectIdentifier) (descr : OctetString) → Body
  close_body : (reason : ℕ) (reason_reserved : List ℕ) → Body
  register_body :
      (context : Option OctetString) (timeout priority range_subid range_subid_reserved : ℕ)
      (subtree : ObjectIdentifier) (upper_bound : Option ℕ)
      → Body
  get_body : (context : Option OctetString) (sr : List SearchRange) → Body
  get_next_body : (context : Option OctetString) (sr : List SearchRange) → Body
  test_set_body : (context : Option OctetString) (vbs : List ValueRepresentation) → Body
  commit_set_body undo_set_body cleanup_set_body : Body
  ping_body : (context : Option OctetString) → Body
  response_body : (sys_up_time error index : ℕ) (values : List ValueRepresentation) → Body

pub record Pdu : Type 0 where
  pub header : PduHeader
  pub body : Body
  pub trailing_bytes : List ℕ

abbrev pub with_length : PduHeader → ℕ → PduHeader
with_length h n = record h { payload_length = n }

-- OpenPDU
unfoldable pub read_open : PduHeader → List ℕ → Result Pdu
read_open h bs = do
  let e = endianness h.flags
  (timeout, (reserved, _)) ← unpack e (byte ∷ text 3 ∷ []) (take 4 bs)
  oid ← Oid.from_bytes e (drop 4 bs)
  descr ← Octets.from_bytes e (drop (Oid.size oid) (drop 4 bs))
  ok (record {
    header = h;
    body = open_body timeout reserved oid descr;
    trailing_bytes = drop (Octets.size descr) (drop (Oid.size oid) (drop 4 bs));
  })

-- ClosePDU: the four bytes are read and stay among the trailing bytes.
unfoldable pub read_close : PduHeader → List ℕ → Result Pdu
read_close h bs = do
  (reason, (reserved, _)) ← unpack (endianness h.flags) (byte ∷ text 3 ∷ []) (take 4 bs)
  ok (record { header = with_length h 4; body = close_body reason reserved; trailing_bytes = bs })

-- ContextOptionalPDU: the context, if the header announces one, and the bytes behind it.
unfoldable pub read_context : PduHeader → List ℕ → Result (Option OctetString × List ℕ)
read_context h bs =
    let announced = (do
      context ← Octets.from_bytes (endianness h.flags) bs
      ok (some context, drop (Octets.size context) bs)) in
    if flag_non_default_context h.flags then announced else ok (none, bs)

-- The field `r.upper_bound`, present only if `range_subid` is not 0.
unfoldable pub read_upper_bound : Endian → ℕ → List ℕ → Result (Option ℕ × List ℕ)
read_upper_bound e range_subid bs =
    let present = (do (bound, _) ← unpack e (long ∷ []) (take 4 bs); ok (some bound, drop 4 bs)) in
    if range_subid == 0 then ok (none, bs) else present

-- RegisterPDU
unfoldable pub read_register : PduHeader → List ℕ → Result Pdu
unfolding read_context read_upper_bound
read_register h payload = do
  let e = endianness h.flags
  (context, bs) ← read_context h payload
  (timeout, (priority, (range_subid, (reserved, _)))) ←
      unpack e (byte ∷ byte ∷ byte ∷ byte ∷ []) (take 4 bs)
  subtree ← Oid.from_bytes e (drop 4 bs)
  (upper_bound, rest) ← read_upper_bound e range_subid (drop (Oid.size subtree) (drop 4 bs))
  ok (record {
    header = h;
    body = register_body context timeout priority range_subid reserved subtree upper_bound;
    trailing_bytes = rest;
  })

-- GetPDU and GetNextPDU
unfoldable pub read_get :
    (Option OctetString → List SearchRange → Body) → PduHeader → List ℕ → Result Pdu
unfolding read_context
read_get body h payload = do
  (context, bs) ← read_context h payload
  (sr, rest) ← read_ranges (endianness h.flags) h.payload_length bs
  ok (record { header = h; body = body context sr; trailing_bytes = rest })

-- The loop of TestSetPDU reads bindings until no byte is left, and keeps none of them.
unfoldable pub skip_bindings : ℕ → Endian → List ℕ → Result (Unit {0})
skip_bindings fuel e [] = ok tt
skip_bindings zero e (b ∷ bs) = err out_of_fuel
skip_bindings (suc fuel) e (b ∷ bs) = do
  vb ← Value.from_bytes e (b ∷ bs)
  size ← Value.size vb
  skip_bindings fuel e (drop size (b ∷ bs))

-- TestSetPDU
unfoldable pub read_test_set : PduHeader → List ℕ → Result Pdu
unfolding read_context skip_bindings
read_test_set h payload = do
  (context, bs) ← read_context h payload
  _ ← skip_bindings (length bs) (endianness h.flags) bs
  ok (record { header = h; body = test_set_body context []; trailing_bytes = [] })

-- CommitSetPDU, UndoSetPDU and CleanupSetPDU have no payload of their own.
unfoldable pub read_plain : Body → PduHeader → List ℕ → Result Pdu
read_plain body h payload = ok (record { header = h; body = body; trailing_bytes = payload })

-- PingPDU
unfoldable pub read_ping : PduHeader → List ℕ → Result Pdu
unfolding read_context
read_ping h payload = do
  (context, bs) ← read_context h payload
  ok (record { header = h; body = ping_body context; trailing_bytes = bs })

-- ResponsePDU; a payload length below 8 leaves the list empty.
unfoldable pub read_response : PduHeader → List ℕ → Result Pdu
read_response h payload = do
  let e = endianness h.flags
  (sys_up_time, (error, (index, _))) ← unpack e (long ∷ half ∷ half ∷ []) (take 8 payload)
  (values, rest) ← read_bindings e (h.payload_length - 8) (drop 8 payload)
  ok (record {
    header = h;
    body = response_body sys_up_time error index values;
    trailing_bytes = rest;
  })
