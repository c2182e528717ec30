-- ===== src/Pdu/Codec.antt =====
-- `PDU.decode` and the `encode` methods, of src/ax_interface/pdu.py and
-- src/ax_interface/pdu_implementations.py.
use sonic_snmpagent.Prelude.{
  ℕ, List, [], ◌∷◌, ◌++◌, length, drop, Option, none, some, Result, ok, err, struct_error,
  value_error, key_error, pack_error, unpack_error, unsupported_pdu, ◌>>=◌, ltb, ◌==◌,
  if◌then◌else◌,
}
use sonic_snmpagent.Constants.{agentx_header_length, agentx_minimum_pdu_size}
use sonic_snmpagent.Struct.{Endian, byte, half, long, text, pack}
use sonic_snmpagent.Encodings.Oid
use sonic_snmpagent.Encodings.Oid.{ObjectIdentifier}
use sonic_snmpagent.Encodings.Octets
use sonic_snmpagent.Encodings.Octets.{OctetString, Text}
use sonic_snmpagent.Encodings.Range
use sonic_snmpagent.Encodings.Range.{SearchRange}
use sonic_snmpagent.Encodings.Value
use sonic_snmpagent.Encodings.Value.{ValueRepresentation}
use sonic_snmpagent.Pdu.Header
use sonic_snmpagent.Pdu.Header.{PduHeader, endianness}
use sonic_snmpagent.Pdu.Body.{
  Body, open_body, close_body, register_body, get_body, get_next_body, test_set_body,
  commit_set_body, undo_set_body, cleanup_set_body, ping_body, response_body, Pdu, read_open,
  read_close, read_register, read_get, read_test_set, read_plain, read_ping, read_response,
}

-- `supported_pdus[header.type_](...)`: the classes that are registered.
unfoldable pub construct : PduHeader → List ℕ → Result Pdu
construct h payload =
    if h.type_ == 1
    then read_open h payload
    else if h.type_ == 2
    then read_close h payload
    else if h.type_ == 3
    then read_register h payload
    else if h.type_ == 5
    then read_get get_body h payload
    else if h.type_ == 6
    then read_get get_next_body h payload
    else if h.type_ == 8
    then read_test_set h payload
    else if h.type_ == 9
    then read_plain commit_set_body h payload
    else if h.type_ == 10
    then read_plain undo_set_body h payload
    else if h.type_ == 11
    then read_plain cleanup_set_body h payload
    else if h.type_ == 13
    then read_ping h payload
    else if h.type_ == 18
    then read_response h payload
    else err key_error

-- The handlers of `decode`: KeyError, and struct.error with ValueError.
unfoldable pub or_decode_error {ℓ} : {A : Type ℓ} → Result A → Result A
or_decode_error (ok a) = ok a
or_decode_error (err key_error) = err unsupported_pdu
or_decode_error (err struct_error) = err unpack_error
or_decode_error (err value_error) = err unpack_error
or_decode_error (err e) = err e

unfoldable pub decode : List ℕ → Result Pdu
unfolding or_decode_error construct
decode byte_string =
    let parsed = (do
      header ← Header.from_bytes byte_string
      or_decode_error (construct header (drop agentx_header_length byte_string))) in
    if ltb (length byte_string) agentx_minimum_pdu_size then err unpack_error else parsed

-- `PDU.encode`
unfoldable pub or_encode_error {ℓ} : {A : Type ℓ} → Result A → Result A
or_encode_error (ok a) = ok a
or_encode_error (err struct_error) = err pack_error
or_encode_error (err value_error) = err pack_error
or_encode_error (err e) = err e

unfoldable pub encode_header : PduHeader → Result (List ℕ)
unfolding or_encode_error
encode_header h = or_encode_error (Header.to_bytes h)

unfoldable pub encode_context : Endian → Option OctetString → Result (List ℕ)
encode_context e none = ok []
encode_context e (some context) = Octets.to_bytes e context

-- `for item in items: ret += item.to_bytes(endianness)`
unfoldable pub concat_bytes {ℓ} : {A : Type ℓ} → (A → Result (List ℕ)) → List A → Result (List ℕ)
concat_bytes to_bytes [] = ok []
concat_bytes to_bytes (x ∷ xs) = do
  front ← to_bytes x
  rest ← concat_bytes to_bytes xs
  ok (front ++ rest)

unfoldable pub encode_upper_bound : Endian → Option ℕ → Result (List ℕ)
encode_upper_bound e none = ok []
encode_upper_bound e (some bound) = pack e (long ∷ []) (bound, tt)

-- What each class appends to the header. ClosePDU and the SET classes have no `encode` of their own.
unfoldable pub encode_body : Endian → Body → Result (List ℕ)
unfolding encode_context concat_bytes encode_upper_bound
encode_body e (open_body timeout reserved oid descr) = do
  front ← pack e (byte ∷ text 3 ∷ []) (timeout, (reserved, tt))
  name ← Oid.to_bytes e oid
  rest ← Octets.to_bytes e descr
  ok (front ++ (name ++ rest))
encode_body e (close_body reason reserved) = ok []
encode_body e (register_body context timeout priority range_subid reserved subtree upper_bound) = do
  front ← encode_context e context
  middle ←
      pack e (byte ∷ byte ∷ byte ∷ byte ∷ []) (timeout, (priority, (range_subid, (reserved, tt))))
  name ← Oid.to_bytes e subtree
  rest ← encode_upper_bound e upper_bound
  ok (front ++ (middle ++ (name ++ rest)))
encode_body e (get_body context sr) = do
  front ← encode_context e context
  rest ← concat_bytes (Range.to_bytes e) sr
  ok (front ++ rest)
encode_body e (get_next_body context sr) = do
  front ← encode_context e context
  rest ← concat_bytes (Range.to_bytes e) sr
  ok (front ++ rest)
encode_body e (test_set_body context vbs) = encode_context e context
encode_body e commit_set_body = ok []
encode_body e undo_set_body = ok []
encode_body e cleanup_set_body = ok []
encode_body e (ping_body context) = encode_context e context
encode_body e (response_body sys_up_time error index values) = do
  front ← pack e (long ∷ half ∷ half ∷ []) (sys_up_time, (error, (index, tt)))
  rest ← concat_bytes (Value.to_bytes e) values
  ok (front ++ rest)

unfoldable pub encode_parts : PduHeader → Body → Result (List ℕ)
unfolding encode_header encode_body
encode_parts h body = do
  front ← encode_header h
  rest ← encode_body (endianness h.flags) body
  ok (front ++ rest)

unfoldable pub encode : Pdu → Result (List ℕ)
unfolding encode_parts
encode pdu = encode_parts pdu.header pdu.body
