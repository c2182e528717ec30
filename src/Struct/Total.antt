-- ===== src/Struct/Total.antt =====
-- Numbers that fit their format can be packed.
use sonic_snmpagent.Prelude.{ℕ, ◌^◌, ◌<◌, ◌≡◌, refl, List, [], ◌∷◌, ◌++◌, All, ok, lt→ltb}
use sonic_snmpagent.Struct.{Endian, uint, pack_one, pack_longs, order, le_bytes}

pub pack_one_total :
    (e : Endian) (w v : ℕ) → v < 256 ^ w → (bs : List ℕ) × (pack_one e (uint w) v ≡ ok bs)
unfolding pack_one
pack_one_total e w v h = (order e (le_bytes w v), rw (lt→ltb v (256 ^ w) h))

pub pack_longs_total :
    (e : Endian) (vs : List ℕ)
    → All (λ x. x < 4294967296) vs
    → (bs : List ℕ) × (pack_longs e vs ≡ ok bs)
unfolding pack_longs
pack_longs_total e [] h = ([], refl)
pack_longs_total e (v ∷ vs) (hv, hvs) =
    let (head, p) = pack_one_total e 4 v hv in
    let (rest, q) = pack_longs_total e vs hvs in (head ++ rest, rw (p, q))
