-- ===== src/Pdu/Items.antt =====
-- The loops that read search ranges and variable bindings off the payload of a PDU, in the
-- constructors of src/ax_interface/pdu_implementations.py.
pub mod RoundTrip
pub mod Ranges
pub mod Bindings
use sonic_snmpagent.Prelude.{
  ℕ, zero, suc, ◌+◌, List, [], ◌∷◌, length, drop, Result, ok, err, out_of_fuel, ◌>>=◌, ltb,
  if◌then◌else◌,
}
use sonic_snmpagent.Struct.{Endian}
use sonic_snmpagent.Encodings.Range
use sonic_snmpagent.Encodings.Range.{SearchRange}
use sonic_snmpagent.Encodings.Value
use sonic_snmpagent.Encodings.Value.{ValueRepresentation}

module _ {A : Type 0} (read_one : List ℕ → Result (A × ℕ)) where
  -- `while self._trailing_bytes and bytes_read < limit`: the items, and the bytes left.
  unfoldable pub read_items : ℕ → ℕ → ℕ → List ℕ → Result (List A × List ℕ)
  read_items fuel limit bytes_read [] = ok ([], [])
  read_items zero limit bytes_read (b ∷ bs) = err out_of_fuel
  read_items (suc fuel) limit bytes_read (b ∷ bs) =
      let round = (do
        (item, size) ← read_one (b ∷ bs)
        (items, rest) ← read_items fuel limit (bytes_read + size) (drop size (b ∷ bs))
        ok (item ∷ items, rest)) in
      if ltb bytes_read limit then round else ok ([], b ∷ bs)

-- An item with its `size`, by which the pointer moves.
unfoldable pub read_range : Endian → List ℕ → Result (SearchRange × ℕ)
read_range e bs = do sr ← Range.from_bytes e bs; ok (sr, Range.size sr)

unfoldable pub read_binding : Endian → List ℕ → Result (ValueRepresentation × ℕ)
read_binding e bs = do vr ← Value.from_bytes e bs; size ← Value.size vr; ok (vr, size)

-- As many rounds as there are bytes.
unfoldable pub read_ranges : Endian → ℕ → List ℕ → Result (List SearchRange × List ℕ)
unfolding read_items read_range
read_ranges e payload_length bs = read_items (read_range e) (length bs) payload_length 0 bs

unfoldable pub read_bindings : Endian → ℕ → List ℕ → Result (List ValueRepresentation × List ℕ)
unfolding read_items read_binding
read_bindings e limit bs = read_items (read_binding e) (length bs) limit 0 bs
