-- ===== src/Pdu/GetTrip.antt =====
-- A Get or GetNext PDU on the wire.
use sonic_snmpagent.Prelude.{
  ℕ, ◌+◌, ◌≡◌, refl, sym, ap, ◌∙◌, arith, List, ◌++◌, length, All, Option, none, some, true, Result,
  ok, err, ◌>>=◌, >>=-eq-ok, false, ltb, length-append, drop-append,
}
use mathlib.Core.List.{append_assoc}
use sonic_snmpagent.Encodings.Octets
use sonic_snmpagent.Encodings.Octets.{OctetString, IsWellFormed}
use sonic_snmpagent.Encodings.Octets.RoundTrip.{octets_from_bytes-to_bytes, length-to_bytes}
use sonic_snmpagent.Encodings.Range
use sonic_snmpagent.Encodings.Range.{SearchRange, IsRange}
use sonic_snmpagent.Pdu.Header
use sonic_snmpagent.Pdu.Header.{PduHeader, endianness, flag_non_default_context}
use sonic_snmpagent.Pdu.Header.RoundTrip as HeaderTrip
use sonic_snmpagent.Pdu.Items.Ranges.{read_ranges-concat_bytes}
use sonic_snmpagent.Pdu.Body.{Body, get_body, get_next_body, read_context, read_get}
use sonic_snmpagent.Pdu.Codec.{
  construct, or_decode_error, decode, or_encode_error, encode_header, encode_context, concat_bytes,
  encode_body, encode_parts, encode,
}

pub or_encode_ok : (r : Result (List ℕ)) (bs : List ℕ) → or_encode_error r ≡ ok bs → r ≡ ok bs
unfolding or_encode_error
or_encode_ok (ok a) bs h = h
or_encode_ok (err e) bs h = ground arith

-- A frame is a header and the bytes that its payload length counts.
pub decode_frame :
    (h : PduHeader) (hs bs more : List ℕ)
    → Header.to_bytes h ≡ ok hs
    → decode ((hs ++ bs) ++ more) ≡ or_decode_error (construct h (bs ++ more))
unfolding decode
decode_frame h hs bs more p =
    let size = HeaderTrip.length-to_bytes h hs p in
    let enough : ltb (length (hs ++ (bs ++ more))) 20 ≡ false =
      ground (arith, length-append hs (bs ++ more)) in
    rw
      (
        append_assoc,
        enough,
        HeaderTrip.header_from_bytes-to_bytes h hs (bs ++ more) p,
        drop-append 20 hs (bs ++ more) size,
      )
      refl

module _ (h : PduHeader) (srs : List SearchRange) (more : List ℕ) (w : All IsRange srs)
    (bare : flag_non_default_context h.flags ≡ false) where
  read_get_lem :
      (body : Option OctetString → List SearchRange → Body) (bs : List ℕ)
      → concat_bytes (Range.to_bytes (endianness h.flags)) srs ≡ ok bs
      → h.payload_length ≡ length bs
      → read_get body h (bs ++ more)
        ≡ ok (record { header = h; body = body none srs; trailing_bytes = more })
  unfolding read_get read_context
  read_get_lem body bs p n =
      rw (bare, n, read_ranges-concat_bytes (endianness h.flags) srs bs more w p) refl

  parts :
      (body : Body) (wire : List ℕ)
      → encode_body (endianness h.flags) body
        ≡ (concat_bytes (Range.to_bytes (endianness h.flags)) srs >>= λ rest. ok rest)
      → encode_parts h body ≡ ok wire
      → (hs : List ℕ) × (bs : List ℕ) × (Header.to_bytes h ≡ ok hs)
        × (concat_bytes (Range.to_bytes (endianness h.flags)) srs ≡ ok bs)
        × (wire ≡ hs ++ bs)
  unfolding encode_parts encode_header
  parts body wire b p =
      let (hs, q, p') = >>=-eq-ok (encode_header h) _ p in
      let (bs, r, s) = >>=-eq-ok (encode_body (endianness h.flags) body) _ p' in
      let (rest, r', same) =
        >>=-eq-ok (concat_bytes (Range.to_bytes (endianness h.flags)) srs) _ (sym b ∙ r) in
      (hs, bs, or_encode_ok (Header.to_bytes h) hs q, r' ∙ same, cc)

  decode_parts :
      (body : Option OctetString → List SearchRange → Body) (wire : List ℕ)
      → encode_body (endianness h.flags) (body none srs)
        ≡ (concat_bytes (Range.to_bytes (endianness h.flags)) srs >>= λ rest. ok rest)
      → ((bs : List ℕ) → construct h bs ≡ read_get body h bs)
      → encode_parts h (body none srs) ≡ ok wire
      → h.payload_length + 20 ≡ length wire
      → decode (wire ++ more)
        ≡ ok (record { header = h; body = body none srs; trailing_bytes = more })
  unfolding or_decode_error
  decode_parts body wire b c p n =
      let (hs, bs, q, r, e) = parts (body none srs) wire b p in
      let total = length-append hs bs in
      let size = HeaderTrip.length-to_bytes h hs q in
      let counted : h.payload_length ≡ length bs = omega (arith, ap length e) in
      rw (e, decode_frame h hs bs more q, c (bs ++ more), read_get_lem body bs r counted) refl

  -- What `encode` writes for a GetNext PDU without a context, `decode` reads back, with the bytes
  -- behind it as trailing bytes. The type in the header is that of the class, the payload length
  -- counts the bytes behind the header, and the search ranges are well-formed.
  pub decode-encode_get_next :
      (trailing wire : List ℕ)
      → h.type_ ≡ 6
      → encode (record { header = h; body = get_next_body none srs; trailing_bytes = trailing })
        ≡ ok wire
      → h.payload_length + 20 ≡ length wire
      → decode (wire ++ more)
        ≡ ok (record { header = h; body = get_next_body none srs; trailing_bytes = more })
  unfolding encode encode_body encode_context construct
  decode-encode_get_next trailing wire k p n =
      decode_parts get_next_body wire refl (λ bs. rw k refl) p n

  pub decode-encode_get :
      (trailing wire : List ℕ)
      → h.type_ ≡ 5
      → encode (record { header = h; body = get_body none srs; trailing_bytes = trailing })
        ≡ ok wire
      → h.payload_length + 20 ≡ length wire
      → decode (wire ++ more)
        ≡ ok (record { header = h; body = get_body none srs; trailing_bytes = more })
  unfolding encode encode_body encode_context construct
  decode-encode_get trailing wire k p n = decode_parts get_body wire refl (λ bs. rw k refl) p n

-- Behind an announced context the loop over the ranges takes as many bytes as the payload length
-- counts. The context and the ranges are well-formed.
pub read_get_context :
    (h : PduHeader) (context : OctetString) (cs : List ℕ) (srs : List SearchRange)
    (bs more : List ℕ)
    → flag_non_default_context h.flags ≡ true
    → IsWellFormed context
    → Octets.to_bytes (endianness h.flags) context ≡ ok cs
    → All IsRange srs
    → concat_bytes (Range.to_bytes (endianness h.flags)) srs ≡ ok bs
    → h.payload_length ≡ length bs
    → read_get get_body h (cs ++ (bs ++ more))
      ≡ ok (record { header = h; body = get_body (some context) srs; trailing_bytes = more })
unfolding read_get read_context
read_get_context h context cs srs bs more announced w c ws r n =
    let e = endianness h.flags in
    rw
      (
        announced,
        octets_from_bytes-to_bytes e context cs w c (bs ++ more),
        drop-append (Octets.size context) cs (bs ++ more) (length-to_bytes e context cs w c),
        n,
        read_ranges-concat_bytes e srs bs more ws r,
      )
      refl
