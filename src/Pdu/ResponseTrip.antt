-- ===== src/Pdu/ResponseTrip.antt =====
-- A Response PDU on the wire.
use sonic_snmpagent.Prelude.{
  ℕ, ◌+◌, ◌-◌, ◌≡◌, refl, ap, arith, List, [], ◌∷◌, ◌++◌, length, map, All, ok, >>=-eq-ok,
  length-append, take-append, drop-append,
}
use mathlib.Core.List.{append_assoc}
use sonic_snmpagent.Struct.{Code, long, half, pack}
use sonic_snmpagent.Struct.RoundTrip.{pack_size, unpack-pack}
use sonic_snmpagent.Encodings.Value
use sonic_snmpagent.Encodings.Value.{ValueRepresentation}
use sonic_snmpagent.Encodings.Value.RoundTrip.{IsBinding}
use sonic_snmpagent.Pdu.Header
use sonic_snmpagent.Pdu.Header.{PduHeader, endianness}
use sonic_snmpagent.Pdu.Header.RoundTrip as HeaderTrip
use sonic_snmpagent.Pdu.Items.Bindings.{read_back, read_bindings-concat_bytes}
use sonic_snmpagent.Pdu.Body.{response_body, read_response}
use sonic_snmpagent.Pdu.Codec.{
  construct, or_decode_error, decode, encode_header, concat_bytes, encode_body, encode_parts,
  encode,
}
use sonic_snmpagent.Pdu.GetTrip.{or_encode_ok, decode_frame}

abbrev response_format : List Code
response_format = long ∷ half ∷ half ∷ []

module _ (h : PduHeader) (time error index : ℕ) (values : List ValueRepresentation)
    (w : All IsBinding values) where
  body_parts :
      (payload : List ℕ)
      → encode_body (endianness h.flags) (response_body time error index values) ≡ ok payload
      → (front : List ℕ) × (rest : List ℕ) × (pack
            (endianness h.flags)
            response_format
            (time, (error, (index, tt)))
          ≡ ok front)
        × (concat_bytes (Value.to_bytes (endianness h.flags)) values ≡ ok rest)
        × (payload ≡ front ++ rest)
  unfolding encode_body
  body_parts payload p =
      let (front, q, p') = >>=-eq-ok (pack (endianness h.flags) response_format _) _ p in
      let (rest, r, s) =
        >>=-eq-ok (concat_bytes (Value.to_bytes (endianness h.flags)) values) _ p' in
      (front, rest, q, r, cc)

  read_response_lem :
      (payload more : List ℕ)
      → encode_body (endianness h.flags) (response_body time error index values) ≡ ok payload
      → h.payload_length ≡ length payload
      → read_response h (payload ++ more)
        ≡ ok (record {
          header = h;
          body = response_body time error index (map read_back values);
          trailing_bytes = more;
        })
  unfolding read_response
  read_response_lem payload more p n =
      let (front, rest, q, r, s) = body_parts payload p in
      let eight = pack_size (endianness h.flags) response_format _ (tt, (tt, (tt, tt))) q in
      let counted : h.payload_length - 8 ≡ length rest =
        omega (arith, ap length s, length-append front rest) in
      rw
        (
          s,
          append_assoc,
          take-append 8 front (rest ++ more) eight,
          unpack-pack (endianness h.flags) response_format _ front (tt, (tt, (tt, tt))) q,
          drop-append 8 front (rest ++ more) eight,
          counted,
          read_bindings-concat_bytes (endianness h.flags) values rest more w r,
        )
        refl

  construct_response : (bs : List ℕ) → h.type_ ≡ 18 → construct h bs ≡ read_response h bs
  unfolding construct
  construct_response bs k = rw k refl

  -- What `encode` writes for a Response PDU, `decode` reads back, with the integers of the
  -- bindings cut to their width and the bytes behind it as trailing bytes. The type in the header
  -- is that of the class, the payload length counts the bytes behind the header, and the bindings
  -- are well-formed.
  pub decode-encode_response :
      (more trailing wire : List ℕ)
      → h.type_ ≡ 18
      → encode (record {
        header = h;
        body = response_body time error index values;
        trailing_bytes = trailing;
      })
        ≡ ok wire
      → h.payload_length + 20 ≡ length wire
      → decode (wire ++ more)
        ≡ ok (record {
          header = h;
          body = response_body time error index (map read_back values);
          trailing_bytes = more;
        })
  unfolding encode encode_parts encode_header or_decode_error
  decode-encode_response more trailing wire k p n =
      let (hs, q, p') = >>=-eq-ok (encode_header h) _ p in
      let (bs, r, s) =
        >>=-eq-ok (encode_body (endianness h.flags) (response_body time error index values)) _ p' in
      let whole : wire ≡ hs ++ bs = cc in
      let written = or_encode_ok (Header.to_bytes h) hs q in
      let total = length-append hs bs in
      let size = HeaderTrip.length-to_bytes h hs written in
      let counted : h.payload_length ≡ length bs = omega (arith, ap length whole) in
      rw
        (
          whole,
          decode_frame h hs bs more written,
          construct_response (bs ++ more) k,
          read_response_lem bs more r counted,
        )
        refl
