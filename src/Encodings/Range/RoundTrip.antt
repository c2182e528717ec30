-- ===== src/Encodings/Range/RoundTrip.antt =====
-- Search ranges on the wire.
use sonic_snmpagent.Prelude.{
  ℕ, ◌≡◌, refl, arith, List, ◌++◌, length, ok, >>=-eq-ok, drop-append, length-append,
}
use sonic_snmpagent.Struct.{Endian}
use sonic_snmpagent.Encodings.Oid
use sonic_snmpagent.Encodings.Oid.RoundTrip
use sonic_snmpagent.Encodings.Range.{SearchRange, IsRange, size, to_bytes, from_bytes}
use mathlib.Core.List.{append_assoc}

to_bytes_parts :
    (e : Endian) (sr : SearchRange) {bs : List ℕ}
    → to_bytes e sr ≡ ok bs
    → (start : List ℕ) × (end : List ℕ) × (Oid.to_bytes e sr.start ≡ ok start)
      × (Oid.to_bytes e sr.end ≡ ok end)
      × (bs ≡ start ++ end)
unfolding to_bytes
to_bytes_parts e sr h =
    let (start, p, h') = >>=-eq-ok (Oid.to_bytes e sr.start) _ h in
    let (end, q, r) = >>=-eq-ok (Oid.to_bytes e sr.end) _ h' in (start, end, p, q, cc)

pub length-to_bytes :
    (e : Endian) (sr : SearchRange) (bs : List ℕ)
    → IsRange sr
    → to_bytes e sr ≡ ok bs
    → length bs ≡ size sr
unfolding size
length-to_bytes e sr bs w h =
    let (start, end, p, q, r) = to_bytes_parts e sr h in
    ground (
      arith,
      RoundTrip.length-to_bytes e sr.start start w.start p,
      RoundTrip.length-to_bytes e sr.end end w.end q,
      length-append start end,
    )

-- `from_bytes` returns the search range that `to_bytes` wrote, whatever bytes follow it.
pub range_from_bytes-to_bytes :
    (e : Endian) (sr : SearchRange) (bs more : List ℕ)
    → IsRange sr
    → to_bytes e sr ≡ ok bs
    → from_bytes e (bs ++ more) ≡ ok sr
unfolding from_bytes
range_from_bytes-to_bytes e sr bs more w h =
    let (start, end, p, q, r) = to_bytes_parts e sr h in
    rw
      (
        r,
        append_assoc,
        RoundTrip.oid_from_bytes-to_bytes e sr.start start (end ++ more) w.start p,
        drop-append (Oid.size sr.start) start (end ++ more)
            (RoundTrip.length-to_bytes e sr.start start w.start p),
        RoundTrip.oid_from_bytes-to_bytes e sr.end end more w.end q,
      )
      refl
