-- ===== src/Struct.antt =====
-- Python's `struct` module, as far as src/ax_interface uses it: the formats `B`, `H`, `L`, `Q` and
-- `{n}s` in standard sizes, with the byte order `!` (network) or `<`. A `bytes` value is a list of
-- numbers below 256.
pub mod RoundTrip
pub mod Total
use sonic_snmpagent.Prelude.{
  ℕ, zero, suc, ◌+◌, ◌*◌, ◌/◌, ◌%◌, ◌^◌, ◌-◌, ◌<◌, List, [], ◌∷◌, ◌++◌, reverse, length, take, drop,
  replicate, Result, ok, err, struct_error, ◌>>=◌, ltb, ◌==◌, if◌then◌else◌,
}

pub data Endian : Type 0 where
  big little : Endian

-- `uint w` is an unsigned integer of `w` bytes, `text n` the format `{n}s`.
pub data Code : Type 0 where
  uint : ℕ → Code
  text : ℕ → Code

abbrev pub byte : Code
byte = uint 1

abbrev pub half : Code
half = uint 2

abbrev pub long : Code
long = uint 4

abbrev pub quad : Code
quad = uint 8

abbrev pub width : Code → ℕ
width (uint w) = w
width (text n) = n

abbrev pub Value : Code → Type 0
Value (uint w) = ℕ
Value (text n) = List ℕ

-- The tuple of values of a format.
abbrev pub Values : List Code → Type 0
Values [] = Unit
Values (f ∷ fs) = Value f × Values fs

abbrev pub calcsize : List Code → ℕ
calcsize [] = 0
calcsize (f ∷ fs) = width f + calcsize fs

unfoldable pub le_bytes : ℕ → ℕ → List ℕ
le_bytes zero v = []
le_bytes (suc w) v = (v % 256) ∷ le_bytes w (v / 256)

unfoldable pub le_value : List ℕ → ℕ
le_value [] = 0
le_value (b ∷ bs) = b + 256 * le_value bs

unfoldable pub order : Endian → List ℕ → List ℕ
order big bs = reverse bs
order little bs = bs

-- A text that is too short is filled with zeros, one that is too long is cut.
unfoldable pub pack_one : Endian → (f : Code) → Value f → Result (List ℕ)
unfolding le_bytes order
pack_one e (uint w) v = if ltb v (256 ^ w) then ok (order e (le_bytes w v)) else err struct_error
pack_one e (text n) s = ok (take n (s ++ replicate (n - length s) 0))

unfoldable pub pack : Endian → (fs : List Code) → Values fs → Result (List ℕ)
unfolding pack_one
pack e [] vs = ok []
pack e (f ∷ fs) (v, vs) = do head ← pack_one e f v; rest ← pack e fs vs; ok (head ++ rest)

unfoldable pub field : Endian → (f : Code) → List ℕ → Value f
unfolding le_value order
field e (uint w) bs = le_value (order e bs)
field e (text n) bs = bs

unfoldable pub fields : Endian → (fs : List Code) → List ℕ → Values fs
unfolding field
fields e [] bs = tt
fields e (f ∷ fs) bs = (field e f (take (width f) bs), fields e fs (drop (width f) bs))

unfoldable pub unpack : Endian → (fs : List Code) → List ℕ → Result (Values fs)
unfolding fields
unpack e fs bs = if length bs == calcsize fs then ok (fields e fs bs) else err struct_error

-- The formats `{n}L`, for any number of values.
unfoldable pub pack_longs : Endian → List ℕ → Result (List ℕ)
unfolding pack_one
pack_longs e [] = ok []
pack_longs e (v ∷ vs) = do head ← pack_one e long v; rest ← pack_longs e vs; ok (head ++ rest)

unfoldable pub longs : Endian → ℕ → List ℕ → List ℕ
unfolding field
longs e zero bs = []
longs e (suc n) bs = field e long (take 4 bs) ∷ longs e n (drop 4 bs)

unfoldable pub unpack_longs : Endian → ℕ → List ℕ → Result (List ℕ)
unfolding longs
unpack_longs e n bs = if length bs == 4 * n then ok (longs e n bs) else err struct_error
