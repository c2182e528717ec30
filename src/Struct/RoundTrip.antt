-- ===== src/Struct/RoundTrip.antt =====
-- Packing and unpacking, and the length of a packed value.
use mathlib.Core.List.{reverse-reverse, append_assoc, append-nil}
use sonic_snmpagent.Prelude.{
  ℕ, zero, suc, ◌*◌, ◌/◌, ◌^◌, ◌-◌, ◌<◌, ◌≡◌, refl, ap, ◌∙◌, arith, List, [], ◌∷◌, ◌++◌, length,
  take, replicate, ok, >>=-eq-ok, length-append, length-reverse, take-append, drop-append, eq→==,
}
use native.Mathlib.Nat.{pow-suc}
use sonic_snmpagent.Struct.{
  Endian, big, little, Code, uint, text, long, width, Value, Values, calcsize, le_bytes, le_value,
  order, pack_one, pack, field, fields, unpack, pack_longs, longs, unpack_longs,
}

length-le_bytes : (w v : ℕ) → length (le_bytes w v) ≡ w
unfolding le_bytes
length-le_bytes zero v = refl
length-le_bytes (suc w) v = ap suc (length-le_bytes w (v / 256))

le_value-le_bytes : (w v : ℕ) → v < 256 ^ w → le_value (le_bytes w v) ≡ v
unfolding le_bytes le_value
le_value-le_bytes zero v h = omega arith
le_value-le_bytes (suc w) v h =
    omega (arith, le_value-le_bytes w (v / 256) (omega (arith, pow-suc 256 w)))

length-order : (e : Endian) (bs : List ℕ) → length (order e bs) ≡ length bs
unfolding order
length-order big bs = length-reverse bs
length-order little bs = refl

order-order : (e : Endian) (bs : List ℕ) → order e (order e bs) ≡ bs
unfolding order
order-order big bs = reverse-reverse bs
order-order little bs = refl

-- A value that has the size of its format.
abbrev pub Exact : (f : Code) → Value f → Type 0
Exact (uint w) v = Unit
Exact (text n) s = length s ≡ n

abbrev pub AllExact : (fs : List Code) → Values fs → Type 0
AllExact [] vs = Unit
AllExact (f ∷ fs) (v, vs) = Exact f v × AllExact fs vs

-- What `pack_one` returns for an integer and for a text of the right size.
pack_one_uint :
    (e : Endian) (w v : ℕ) {bs : List ℕ}
    → pack_one e (uint w) v ≡ ok bs
    → (v < 256 ^ w) × (bs ≡ order e (le_bytes w v))
unfolding pack_one
pack_one_uint e w v h = ground arith

pub pack_one_text : (e : Endian) (n : ℕ) (s : List ℕ) → length s ≡ n → pack_one e (text n) s ≡ ok s
unfolding pack_one
pack_one_text e n s x = ap ok (take-append n s (replicate (n - length s) 0) x)

pub pack_one_size :
    (e : Endian) (f : Code) (v : Value f) {bs : List ℕ}
    → Exact f v
    → pack_one e f v ≡ ok bs
    → length bs ≡ width f
pack_one_size e (uint w) v x h =
    let (_, q) = pack_one_uint e w v h in rw q (length-order e (le_bytes w v) ∙ length-le_bytes w v)
pack_one_size e (text n) s x h = ground (arith, pack_one_text e n s x)

pub field-pack_one :
    (e : Endian) (f : Code) (v : Value f) {bs : List ℕ}
    → Exact f v
    → pack_one e f v ≡ ok bs
    → field e f bs ≡ v
unfolding field
field-pack_one e (uint w) v x h =
    let (fits, q) = pack_one_uint e w v h in
    rw (q, order-order e (le_bytes w v)) (le_value-le_bytes w v fits)
field-pack_one e (text n) s x h = ground (arith, pack_one_text e n s x)

pack_cons :
    (e : Endian) (f : Code) (fs : List Code) (v : Value f) (vs : Values fs) {bs : List ℕ}
    → pack e (f ∷ fs) (v, vs) ≡ ok bs
    → (head : List ℕ) × (rest : List ℕ) × (pack_one e f v ≡ ok head)
      × (pack e fs vs ≡ ok rest)
      × (bs ≡ head ++ rest)
unfolding pack
pack_cons e f fs v vs h =
    let (head, p, h') = >>=-eq-ok (pack_one e f v) _ h in
    let (rest, q, r) = >>=-eq-ok (pack e fs vs) _ h' in (head, rest, p, q, cc)

pub pack_size :
    (e : Endian) (fs : List Code) (vs : Values fs) {bs : List ℕ}
    → AllExact fs vs
    → pack e fs vs ≡ ok bs
    → length bs ≡ calcsize fs
pack_size e [] vs x h = unfold pack in ground arith
pack_size e (f ∷ fs) (v, vs) (x, xs) h =
    let (head, rest, p, q, r) = pack_cons e f fs v vs h in
    ground (arith, pack_one_size e f v x p, pack_size e fs vs xs q, length-append head rest)

fields-pack :
    (e : Endian) (fs : List Code) (vs : Values fs) {bs : List ℕ}
    → AllExact fs vs
    → pack e fs vs ≡ ok bs
    → fields e fs bs ≡ vs
unfolding fields
fields-pack e [] vs x h = refl
fields-pack e (f ∷ fs) (v, vs) (x, xs) h =
    let (head, rest, p, q, r) = pack_cons e f fs v vs h in
    let size = pack_one_size e f v x p in
    rw (r, take-append (width f) head rest size, drop-append (width f) head rest size)
      (λ i. (field-pack_one e f v x p i, fields-pack e fs vs xs q i))

-- Unpacking what was packed returns the packed values, whatever the format and the byte order.
pub unpack-pack :
    (e : Endian) (fs : List Code) (vs : Values fs) (bs : List ℕ)
    → AllExact fs vs
    → pack e fs vs ≡ ok bs
    → unpack e fs bs ≡ ok vs
unfolding unpack
unpack-pack e fs vs bs x h =
    rw (eq→== (length bs) (calcsize fs) (pack_size e fs vs x h)) (ap ok (fields-pack e fs vs x h))

pack_single :
    (e : Endian) (f : Code) (v : Value f) (head : List ℕ)
    → pack_one e f v ≡ ok head
    → pack e (f ∷ []) (v, tt) ≡ ok head
unfolding pack
pack_single e f v head p = rw (p, append-nil)

-- The first field can be unpacked alone, whatever bytes follow.
pub unpack_first :
    (e : Endian) (f : Code) (fs : List Code) (v : Value f) (vs : Values fs) (bs more : List ℕ)
    → Exact f v
    → pack e (f ∷ fs) (v, vs) ≡ ok bs
    → unpack e (f ∷ []) (take (width f) (bs ++ more)) ≡ ok (v, tt)
unpack_first e f fs v vs bs more x h =
    let (head, rest, p, q, r) = pack_cons e f fs v vs h in
    rw (r, append_assoc, take-append (width f) head (rest ++ more) (pack_one_size e f v x p))
      (unpack-pack e (f ∷ []) (v, tt) head (x, tt) (pack_single e f v head p))

pub pack_longs_size :
    (e : Endian) (vs : List ℕ) {bs : List ℕ} → pack_longs e vs ≡ ok bs → length bs ≡ 4 * length vs
unfolding pack_longs
pack_longs_size e [] h = ground arith
pack_longs_size e (v ∷ vs) h =
    let (head, p, h') = >>=-eq-ok (pack_one e long v) _ h in
    let (rest, q, r) = >>=-eq-ok (pack_longs e vs) _ h' in
    ground (arith, pack_one_size e long v tt p, pack_longs_size e vs q, length-append head rest)

longs-pack_longs :
    (e : Endian) (vs : List ℕ) {bs : List ℕ} → pack_longs e vs ≡ ok bs → longs e (length vs) bs ≡ vs
unfolding pack_longs longs
longs-pack_longs e [] h = refl
longs-pack_longs e (v ∷ vs) {bs} h =
    let (head, p, h') = >>=-eq-ok (pack_one e long v) _ h in
    let (rest, q, r) = >>=-eq-ok (pack_longs e vs) _ h' in
    let size = pack_one_size e long v tt p in
    let split : bs ≡ head ++ rest = cc in
    rw (split, take-append 4 head rest size, drop-append 4 head rest size)
      (λ i. field-pack_one e long v tt p i ∷ longs-pack_longs e vs q i)

pub unpack_longs-pack_longs :
    (e : Endian) (n : ℕ) (vs bs : List ℕ)
    → n ≡ length vs
    → pack_longs e vs ≡ ok bs
    → unpack_longs e n bs ≡ ok vs
unfolding unpack_longs
unpack_longs-pack_longs e n vs bs c h =
    rw (c, eq→== (length bs) (4 * length vs) (pack_longs_size e vs h))
      (ap ok (longs-pack_longs e vs h))
