-- ===== src/Pdu/Items/Bindings.antt =====
-- Variable bindings as items of the payload of a Response PDU.
use sonic_snmpagent.Prelude.{
  ℕ, ◌<◌, ◌≡◌, refl, ap, ◌∙◌, arith, List, [], ◌∷◌, ◌++◌, length, map, All, ok, >>=-eq-ok,
}
use sonic_snmpagent.Struct.{Endian}
use sonic_snmpagent.Encodings.Value
use sonic_snmpagent.Encodings.Value.{
  ValueRepresentation, Data, Layout, four_byte, eight_byte, oid_layout, octet_layout, empty_layout,
  layout, size_of, size,
}
use sonic_snmpagent.Encodings.Value.RoundTrip.{
  IsBinding, canonical, size-to_bytes, value_from_bytes-to_bytes,
}
use sonic_snmpagent.Pdu.Items.{read_binding, read_bindings}
use sonic_snmpagent.Pdu.Items.RoundTrip.{Item, items_of, bytes_of, read_items-bytes_of}
use sonic_snmpagent.Pdu.Codec.{concat_bytes}

-- The binding that the other side reads, with its integer cut to the width of its type.
abbrev pub read_back : ValueRepresentation → ValueRepresentation
read_back vr = record vr { value = canonical (layout vr.type_) vr.value }

size_of-canonical : (l : Layout) (d : Data) → size_of l (canonical l d) ≡ size_of l d
unfolding size_of
size_of-canonical four_byte d = refl
size_of-canonical eight_byte d = refl
size_of-canonical oid_layout d = refl
size_of-canonical octet_layout d = refl
size_of-canonical empty_layout d = refl

size-read_back : (vr : ValueRepresentation) → size (read_back vr) ≡ size vr
unfolding size
size-read_back vr = rw (size_of-canonical (layout vr.type_) vr.value) refl

size_pos : (vr : ValueRepresentation) (n : ℕ) → size vr ≡ ok n → 0 < n
unfolding size
size_pos vr n h =
    let (extra, p, q) = >>=-eq-ok (size_of (layout vr.type_) vr.value) _ h in ground arith

binding_item :
    (e : Endian) (vr : ValueRepresentation) (bs : List ℕ)
    → IsBinding vr
    → Value.to_bytes e vr ≡ ok bs
    → Item (read_binding e)
binding_item e vr bs w h = record {
  item = read_back vr;
  bytes = bs;
  nonempty = size_pos vr (length bs) (size-to_bytes e vr bs w h);
  reads = λ more.
      unfold read_binding in
      rw (value_from_bytes-to_bytes e vr bs more w h, size-read_back vr, size-to_bytes e vr bs w h)
        refl;
}

binding_items :
    (e : Endian) (vrs : List ValueRepresentation) (bs : List ℕ)
    → All IsBinding vrs
    → concat_bytes (Value.to_bytes e) vrs ≡ ok bs
    → (xs : List (Item (read_binding e))) × (items_of (read_binding e) xs ≡ map read_back vrs)
      × (bytes_of (read_binding e) xs ≡ bs)
unfolding concat_bytes binding_item
binding_items e [] bs w h = ([], refl, cc)
binding_items e (vr ∷ vrs) bs (w, ws) h =
    let (front, p, h') = >>=-eq-ok (Value.to_bytes e vr) _ h in
    let (rest, q, r) = >>=-eq-ok (concat_bytes (Value.to_bytes e) vrs) _ h' in
    let (xs, s, t) = binding_items e vrs rest ws q in
    let whole : front ++ rest ≡ bs = cc in
    (binding_item e vr front w p ∷ xs, ap (λ z. read_back vr ∷ z) s, ap (λ z. front ++ z) t ∙ whole)

-- The loop of the Response PDU reads back the bindings that were written.
pub read_bindings-concat_bytes :
    (e : Endian) (vrs : List ValueRepresentation) (bs more : List ℕ)
    → All IsBinding vrs
    → concat_bytes (Value.to_bytes e) vrs ≡ ok bs
    → read_bindings e (length bs) (bs ++ more) ≡ ok (map read_back vrs, more)
unfolding read_bindings
read_bindings-concat_bytes e vrs bs more w h =
    let (xs, s, t) = binding_items e vrs bs w h in
    rw (← t, ← s)
      (read_items-bytes_of (read_binding e) _ (length (bytes_of (read_binding e) xs)) 0 xs more
        (omega arith) (omega arith))
