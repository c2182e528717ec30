-- ===== src/Pdu/Make.antt =====
-- The constructors from fields, in src/ax_interface/pdu_implementations.py, and `make_response`.
use sonic_snmpagent.Prelude.{
  ℕ, ◌-◌, List, [], ◌∷◌, length, none, Result, ok, err, not_implemented_error, ◌>>=◌,
}
use sonic_snmpagent.Constants.{agentx_header_length}
use sonic_snmpagent.Encodings.Oid
use sonic_snmpagent.Encodings.Oid.{ObjectIdentifier}
use sonic_snmpagent.Encodings.Octets
use sonic_snmpagent.Encodings.Octets.{Text}
use sonic_snmpagent.Encodings.Range.{SearchRange}
use sonic_snmpagent.Encodings.Value.{ValueRepresentation}
use sonic_snmpagent.Util.{pad4bytes}
use sonic_snmpagent.Mib.Table
use sonic_snmpagent.Mib.Table.{MibTable}
use sonic_snmpagent.Pdu.Header.{PduHeader}
use sonic_snmpagent.Pdu.Body.{
  Body, open_body, close_body, register_body, get_body, get_next_body, test_set_body,
  commit_set_body, undo_set_body, cleanup_set_body, ping_body, response_body, Pdu, with_length,
  read_context,
}
use sonic_snmpagent.Pdu.Codec.{encode_parts}

abbrev pub retype : PduHeader → ℕ → PduHeader
retype h n = record h { type_ = n }

-- `self.header = self.header._replace(payload_length=self.payload_length)` at the end of a
-- constructor from fields.
unfoldable pub finish : PduHeader → Body → Result Pdu
finish h body = do
  encoded ← encode_parts h body
  ok (record {
    header = with_length h (length encoded - agentx_header_length);
    body = body;
    trailing_bytes = [];
  })

unfoldable pub new_open : PduHeader → ℕ → ObjectIdentifier → Text → Result Pdu
unfolding finish
new_open h timeout oid descr = do
  string ← Octets.from_string descr
  finish (retype h 1) (open_body timeout (pad4bytes 1) oid string)

-- Without a payload ContextOptionalPDU still reads an announced context, from no bytes.
unfoldable pub new_register : PduHeader → ℕ → ℕ → ℕ → ObjectIdentifier → Result Pdu
unfolding finish read_context
new_register h timeout priority range_subid subtree = do
  (context, _) ← read_context (retype h 3) []
  finish (retype h 3) (register_body context timeout priority range_subid 0 subtree none)

unfoldable pub new_response : PduHeader → ℕ → ℕ → ℕ → List ValueRepresentation → Result Pdu
unfolding finish
new_response h sys_up_time error index values =
    finish (retype h 18) (response_body sys_up_time error index values)

-- `SearchRange(start=oid, end=oid.inc())` for each OID.
unfoldable pub ranges_of : List ObjectIdentifier → Result (List SearchRange)
ranges_of [] = ok []
ranges_of (oid ∷ oids) = do
  end ← Oid.inc oid
  rest ← ranges_of oids
  ok (record { start = oid; end = end } ∷ rest)

-- GetPDU from OIDs; its payload length is that of the whole encoding.
unfoldable pub new_get : PduHeader → List ObjectIdentifier → Result Pdu
unfolding ranges_of read_context
new_get h oids = do
  (context, _) ← read_context (retype h 5) []
  sr ← ranges_of oids
  encoded ← encode_parts (retype h 5) (get_body context sr)
  ok (record {
    header = with_length (retype h 5) (length encoded);
    body = get_body context sr;
    trailing_bytes = [];
  })

-- `for sr in self.sr: var_bind_list.append(lookup(sr))`
unfoldable pub answers :
    (SearchRange → Result ValueRepresentation)
    → List SearchRange
    → Result (List ValueRepresentation)
answers answer [] = ok []
answers answer (sr ∷ srs) = do vr ← answer sr; rest ← answers answer srs; ok (vr ∷ rest)

-- Only the two Get classes make a response.
unfoldable pub respond : MibTable → PduHeader → Body → Result Pdu
unfolding answers
respond t h (get_body context sr) = do
  values ← answers (Table.get t) sr
  new_response h 0 0 0 values
respond t h (get_next_body context sr) = do
  values ← answers (Table.get_next_value t) sr
  new_response h 0 0 0 values
respond t h (open_body timeout reserved oid descr) = err not_implemented_error
respond t h (close_body reason reserved) = err not_implemented_error
respond t h (register_body context timeout priority range_subid reserved subtree bound) =
    err not_implemented_error
respond t h (test_set_body context vbs) = err not_implemented_error
respond t h commit_set_body = err not_implemented_error
respond t h undo_set_body = err not_implemented_error
respond t h cleanup_set_body = err not_implemented_error
respond t h (ping_body context) = err not_implemented_error
respond t h (response_body sys_up_time error index values) = err not_implemented_error

unfoldable pub make_response : MibTable → Pdu → Result Pdu
unfolding respond
make_response t pdu = respond t pdu.header pdu.body
