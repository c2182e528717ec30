-- ===== src/Encodings/Oid/RoundTrip.antt =====
-- Object identifiers on the wire.
use sonic_snmpagent.Prelude.{
  ℕ, ◌+◌, ◌*◌, ◌≡◌, refl, arith, List, [], ◌∷◌, ◌++◌, length, ok, >>=-eq-ok, length-append,
  slice-append, take-append,
}
use sonic_snmpagent.Struct.{Endian, Code, Values, byte, pack, pack_longs}
use sonic_snmpagent.Struct.RoundTrip.{
  AllExact, pack_size, unpack-pack, pack_longs_size, unpack_longs-pack_longs,
}
use mathlib.Core.List.{append_assoc}
use sonic_snmpagent.Encodings.Oid.{ObjectIdentifier, size, to_bytes, from_bytes, IsWellFormed}

abbrev oid_header : List Code
oid_header = byte ∷ byte ∷ byte ∷ byte ∷ []

abbrev header_of : ObjectIdentifier → Values oid_header
header_of o = (o.n_subid, (o.prefix_, (o.include, (o.reserved, tt))))

abbrev exact : (o : ObjectIdentifier) → AllExact oid_header (header_of o)
exact o = (tt, (tt, (tt, (tt, tt))))

-- The two parts of what `to_bytes` writes.
to_bytes_parts :
    (e : Endian) (o : ObjectIdentifier) {bs : List ℕ}
    → to_bytes e o ≡ ok bs
    → (header : List ℕ) × (rest : List ℕ) × (pack e
          (byte ∷ byte ∷ byte ∷ byte ∷ [])
          (o.n_subid, (o.prefix_, (o.include, (o.reserved, tt))))
        ≡ ok header)
      × (pack_longs e o.subids ≡ ok rest)
      × (bs ≡ header ++ rest)
unfolding to_bytes
to_bytes_parts e o h =
    let (header, p, h') = >>=-eq-ok (pack e (byte ∷ byte ∷ byte ∷ byte ∷ []) _) _ h in
    let (rest, q, r) = >>=-eq-ok (pack_longs e o.subids) _ h' in (header, rest, p, q, cc)

-- The size property tells how many bytes `to_bytes` writes.
pub length-to_bytes :
    (e : Endian) (o : ObjectIdentifier) (bs : List ℕ)
    → IsWellFormed o
    → to_bytes e o ≡ ok bs
    → length bs ≡ size o
unfolding size
length-to_bytes e o bs w h =
    let (header, rest, p, q, r) = to_bytes_parts e o h in
    ground (
      arith,
      pack_size e oid_header (header_of o) (exact o) p,
      pack_longs_size e o.subids q,
      length-append header rest,
      w.counted,
    )

-- `from_bytes` returns the identifier that `to_bytes` wrote, whatever bytes follow it. The
-- identifier is well-formed.
pub oid_from_bytes-to_bytes :
    (e : Endian) (o : ObjectIdentifier) (bs more : List ℕ)
    → IsWellFormed o
    → to_bytes e o ≡ ok bs
    → from_bytes e (bs ++ more) ≡ ok o
unfolding from_bytes
oid_from_bytes-to_bytes e o bs more w h =
    let (header, rest, p, q, r) = to_bytes_parts e o h in
    let four = pack_size e oid_header (header_of o) (exact o) p in
    let middle =
      slice-append 4 (4 + o.n_subid * 4) header rest more four
        (omega (arith, four, w.counted, pack_longs_size e o.subids q)) in
    rw
      (
        r,
        append_assoc,
        take-append 4 header (rest ++ more) four,
        unpack-pack e oid_header (header_of o) header (exact o) p,
        middle,
        unpack_longs-pack_longs e o.n_subid o.subids rest w.counted q,
      )
      refl
