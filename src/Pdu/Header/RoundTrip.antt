-- ===== src/Pdu/Header/RoundTrip.antt =====
-- The header on the wire.
use sonic_snmpagent.Prelude.{
  ℕ, ◌≡◌, refl, arith, List, ◌++◌, length, ok, >>=-eq-ok, length-append, take-append, slice-append,
}
use mathlib.Core.List.{append_assoc}
use sonic_snmpagent.Struct.{big, pack}
use sonic_snmpagent.Struct.RoundTrip.{pack_size, unpack-pack}
use sonic_snmpagent.Pdu.Header.{
  PduHeader, endianness, tags_format, identifiers_format, tags, identifiers, to_bytes, from_bytes,
}

to_bytes_parts :
    (h : PduHeader) {bs : List ℕ}
    → to_bytes h ≡ ok bs
    → (front : List ℕ) × (rest : List ℕ) × (pack big tags_format (tags h) ≡ ok front)
      × (pack (endianness h.flags) identifiers_format (identifiers h) ≡ ok rest)
      × (bs ≡ front ++ rest)
unfolding to_bytes
to_bytes_parts h p =
    let (front, q, p') = >>=-eq-ok (pack big tags_format (tags h)) _ p in
    let (rest, r, s) =
      >>=-eq-ok (pack (endianness h.flags) identifiers_format (identifiers h)) _ p' in
    (front, rest, q, r, cc)

-- The fixed size of the header.
pub length-to_bytes : (h : PduHeader) (bs : List ℕ) → to_bytes h ≡ ok bs → length bs ≡ 20
length-to_bytes h bs p =
    let (front, rest, q, r, s) = to_bytes_parts h p in
    ground (
      arith,
      pack_size big tags_format (tags h) (tt, (tt, (tt, (tt, tt)))) q,
      pack_size (endianness h.flags) identifiers_format (identifiers h) (tt, (tt, (tt, (tt, tt))))
          r,
      length-append front rest,
    )

-- `from_bytes` returns the header that `to_bytes` wrote, in the byte order that its own flags
-- state, whatever bytes follow it.
pub header_from_bytes-to_bytes :
    (h : PduHeader) (bs more : List ℕ) → to_bytes h ≡ ok bs → from_bytes (bs ++ more) ≡ ok h
unfolding from_bytes
header_from_bytes-to_bytes h bs more p =
    let (front, rest, q, r, s) = to_bytes_parts h p in
    let four = pack_size big tags_format (tags h) (tt, (tt, (tt, (tt, tt)))) q in
    let sixteen =
      pack_size (endianness h.flags) identifiers_format (identifiers h) (tt, (tt, (tt, (tt, tt))))
        r in
    rw
      (
        s,
        append_assoc,
        take-append 4 front (rest ++ more) four,
        unpack-pack big tags_format (tags h) front (tt, (tt, (tt, (tt, tt)))) q,
        slice-append 4 20 front rest more four (omega (arith, four, sixteen)),
        unpack-pack (endianness h.flags) identifiers_format (identifiers h) rest
            (tt, (tt, (tt, (tt, tt)))) r,
      )
      refl
