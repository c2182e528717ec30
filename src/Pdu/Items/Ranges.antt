-- ===== src/Pdu/Items/Ranges.antt =====
-- Search ranges as items of a payload.
use sonic_snmpagent.Prelude.{
  ℕ, ◌≡◌, refl, ap, ◌∙◌, arith, List, [], ◌∷◌, ◌++◌, length, All, ok, >>=-eq-ok,
}
use sonic_snmpagent.Struct.{Endian}
use sonic_snmpagent.Encodings.Oid
use sonic_snmpagent.Encodings.Range
use sonic_snmpagent.Encodings.Range.{SearchRange, IsRange}
use sonic_snmpagent.Encodings.Range.RoundTrip as RangeTrip
use sonic_snmpagent.Pdu.Items.{read_range, read_ranges}
use sonic_snmpagent.Pdu.Items.RoundTrip.{Item, items_of, bytes_of, read_items-bytes_of}
use sonic_snmpagent.Pdu.Codec.{concat_bytes}

range_item :
    (e : Endian) (sr : SearchRange) (bs : List ℕ)
    → IsRange sr
    → Range.to_bytes e sr ≡ ok bs
    → Item (read_range e)
range_item e sr bs w h = record {
  item = sr;
  bytes = bs;
  nonempty = unfold Range.size Oid.size in omega (arith, RangeTrip.length-to_bytes e sr bs w h);
  reads = λ more.
      unfold read_range in
      rw
        (
          RangeTrip.range_from_bytes-to_bytes e sr bs more w h,
          ← RangeTrip.length-to_bytes e sr bs w h,
        )
        refl;
}

-- The items of a list whose bytes are the concatenation.
range_items :
    (e : Endian) (srs : List SearchRange) (bs : List ℕ)
    → All IsRange srs
    → concat_bytes (Range.to_bytes e) srs ≡ ok bs
    → (xs : List (Item (read_range e))) × (items_of (read_range e) xs ≡ srs)
      × (bytes_of (read_range e) xs ≡ bs)
unfolding concat_bytes range_item
range_items e [] bs w h = ([], refl, cc)
range_items e (sr ∷ srs) bs (w, ws) h =
    let (front, p, h') = >>=-eq-ok (Range.to_bytes e sr) _ h in
    let (rest, q, r) = >>=-eq-ok (concat_bytes (Range.to_bytes e) srs) _ h' in
    let (xs, s, t) = range_items e srs rest ws q in
    let whole : front ++ rest ≡ bs = cc in
    (range_item e sr front w p ∷ xs, ap (λ z. sr ∷ z) s, ap (λ z. front ++ z) t ∙ whole)

-- The loop of the Get PDUs reads back the ranges, if the payload length counts their bytes and the
-- ranges are well-formed.
pub read_ranges-concat_bytes :
    (e : Endian) (srs : List SearchRange) (bs more : List ℕ)
    → All IsRange srs
    → concat_bytes (Range.to_bytes e) srs ≡ ok bs
    → read_ranges e (length bs) (bs ++ more) ≡ ok (srs, more)
unfolding read_ranges
read_ranges-concat_bytes e srs bs more w h =
    let (xs, s, t) = range_items e srs bs w h in
    rw (← t, ← s)
      (read_items-bytes_of (read_range e) _ (length (bytes_of (read_range e) xs)) 0 xs more
        (omega arith) (omega arith))
