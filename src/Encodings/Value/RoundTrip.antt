-- ===== src/Encodings/Value/RoundTrip.antt =====
-- Variable bindings on the wire.
use sonic_snmpagent.Prelude.{
  ℕ, pos, ◌+◌, ◌≡◌, refl, arith, List, [], ◌∷◌, ◌++◌, length, take, ok, >>=-eq-ok, length-append,
  take-append, drop-append, drop-append_two,
}
use sonic_snmpagent.Constants.{type_code, value_type-type_code}
use sonic_snmpagent.Struct.{Endian, Code, uint, half, long, quad, pack, unpack}
use sonic_snmpagent.Struct.RoundTrip.{pack_size, unpack_first, unpack-pack}
use sonic_snmpagent.Encodings.Oid
use sonic_snmpagent.Encodings.Oid.RoundTrip as OidTrip
use sonic_snmpagent.Encodings.Octets
use sonic_snmpagent.Encodings.Octets.RoundTrip as OctetsTrip
use sonic_snmpagent.Encodings.Value.{
  Data, int, oid, octets, nothing, ValueRepresentation, Layout, four_byte, eight_byte, oid_layout,
  octet_layout, empty_layout, layout, size_of, size, mask, data_bytes, to_bytes, unpack_data,
  from_bytes,
}
use mathlib.Core.List.{append_assoc}

-- The value has the form that its layout sends.
abbrev pub Fits : Layout → Data → Type 0
Fits four_byte (int n) = Unit
Fits eight_byte (int n) = Unit
Fits oid_layout (oid o) = Oid.IsWellFormed o
Fits octet_layout (octets s) = Octets.IsWellFormed s
Fits empty_layout nothing = Unit
Fits _ _ = ⊥

-- The value that the other side reads: an integer is cut to its 32 or 64 bits.
abbrev pub canonical : Layout → Data → Data
canonical four_byte (int n) = int (pos (mask 32 n))
canonical eight_byte (int n) = int (pos (mask 64 n))
canonical _ d = d

unpack-number :
    (e : Endian) (w n : ℕ) (bs more : List ℕ)
    → pack e (uint w ∷ []) (n, tt) ≡ ok bs
    → unpack e (uint w ∷ []) (take w (bs ++ more)) ≡ ok (n, tt)
unpack-number e w n bs more h = unpack_first e (uint w) [] n tt bs more tt h

unpack_data-data_bytes :
    (e : Endian) (l : Layout) (d : Data) (bs more : List ℕ)
    → Fits l d
    → data_bytes e l d ≡ ok bs
    → unpack_data e l (bs ++ more) ≡ ok (canonical l d)
unfolding data_bytes unpack_data
unpack_data-data_bytes e four_byte (int n) bs more f h =
    rw (unpack-number e 4 (mask 32 n) bs more h)
unpack_data-data_bytes e eight_byte (int n) bs more f h =
    rw (unpack-number e 8 (mask 64 n) bs more h)
unpack_data-data_bytes e oid_layout (oid o) bs more f h =
    rw (OidTrip.oid_from_bytes-to_bytes e o bs more f h)
unpack_data-data_bytes e octet_layout (octets s) bs more f h =
    rw (OctetsTrip.octets_from_bytes-to_bytes e s bs f h more)
unpack_data-data_bytes e empty_layout nothing bs more f h = refl
unpack_data-data_bytes e _ _ bs more f h = absurd f

size_of-data_bytes :
    (e : Endian) (l : Layout) (d : Data) (bs : List ℕ)
    → Fits l d
    → data_bytes e l d ≡ ok bs
    → size_of l d ≡ ok (length bs)
unfolding data_bytes size_of
size_of-data_bytes e four_byte (int n) bs f h =
    ground (arith, pack_size e (long ∷ []) (mask 32 n, tt) (tt, tt) h)
size_of-data_bytes e eight_byte (int n) bs f h =
    ground (arith, pack_size e (quad ∷ []) (mask 64 n, tt) (tt, tt) h)
size_of-data_bytes e oid_layout (oid o) bs f h = rw (OidTrip.length-to_bytes e o bs f h)
size_of-data_bytes e octet_layout (octets s) bs f h = rw (OctetsTrip.length-to_bytes e s bs f h)
size_of-data_bytes e empty_layout nothing bs f h = ground arith
size_of-data_bytes e _ _ bs f h = absurd f

-- A binding with a well-formed name and a value of the form that its type sends.
pub record IsBinding (vr : ValueRepresentation) : Type 0 where
  pub name : Oid.IsWellFormed vr.name
  pub value : Fits (layout vr.type_) vr.value

abbrev binding_header : List Code
binding_header = half ∷ half ∷ []

to_bytes_parts :
    (e : Endian) (vr : ValueRepresentation) {bs : List ℕ}
    → to_bytes e vr ≡ ok bs
    → (header : List ℕ) × (name : List ℕ) × (rest : List ℕ) × (pack e binding_header
          (type_code vr.type_, (vr.reserved, tt))
        ≡ ok header)
      × (Oid.to_bytes e vr.name ≡ ok name)
      × (data_bytes e (layout vr.type_) vr.value ≡ ok rest)
      × (bs ≡ header ++ (name ++ rest))
unfolding to_bytes
to_bytes_parts e vr h =
    let (header, p, h') = >>=-eq-ok (pack e binding_header _) _ h in
    let (name, q, h'') = >>=-eq-ok (Oid.to_bytes e vr.name) _ h' in
    let (rest, r, s) = >>=-eq-ok (data_bytes e (layout vr.type_) vr.value) _ h'' in
    (header, name, rest, p, q, r, cc)

-- The size property tells how many bytes `to_bytes` writes.
pub size-to_bytes :
    (e : Endian) (vr : ValueRepresentation) (bs : List ℕ)
    → IsBinding vr
    → to_bytes e vr ≡ ok bs
    → size vr ≡ ok (length bs)
unfolding size
size-to_bytes e vr bs w h =
    let (header, name, rest, p, q, r, s) = to_bytes_parts e vr h in
    ground (
      arith,
      pack_size e binding_header (type_code vr.type_, (vr.reserved, tt)) (tt, (tt, tt)) p,
      OidTrip.length-to_bytes e vr.name name w.name q,
      size_of-data_bytes e (layout vr.type_) vr.value rest w.value r,
      length-append header (name ++ rest),
      length-append name rest,
    )

-- `from_bytes` returns the binding that `to_bytes` wrote, with integers cut to their width,
-- whatever bytes follow it. The name is well-formed and the value fits its type.
pub value_from_bytes-to_bytes :
    (e : Endian) (vr : ValueRepresentation) (bs more : List ℕ)
    → IsBinding vr
    → to_bytes e vr ≡ ok bs
    → from_bytes e (bs ++ more) ≡ ok (record vr { value = canonical (layout vr.type_) vr.value })
unfolding from_bytes
value_from_bytes-to_bytes e vr bs more w h =
    let (header, name, rest, p, q, r, s) = to_bytes_parts e vr h in
    let four =
      pack_size e binding_header (type_code vr.type_, (vr.reserved, tt)) (tt, (tt, tt)) p in
    rw
      (
        s,
        append_assoc,
        append_assoc,
        take-append 4 header (name ++ (rest ++ more)) four,
        drop-append 4 header (name ++ (rest ++ more)) four,
        unpack-pack e binding_header (type_code vr.type_, (vr.reserved, tt)) header (tt, (tt, tt))
            p,
        OidTrip.oid_from_bytes-to_bytes e vr.name name (rest ++ more) w.name q,
        value_type-type_code vr.type_,
        drop-append_two (4 + Oid.size vr.name) header name (rest ++ more)
            (omega (arith, four, OidTrip.length-to_bytes e vr.name name w.name q)),
        unpack_data-data_bytes e (layout vr.type_) vr.value rest more w.value r,
      )
      refl
