-- ===== src/Encodings/Oid/Names.antt =====
-- Object identifiers as tuples, and which of them can be packed.
use sonic_snmpagent.Prelude.{
  ℕ, ◌≡◌, refl, ap, arith, List, [], ◌∷◌, ◌++◌, take, drop, ok, err, index_error, take-append-drop,
  true, false, ◌≢◌, Bool-cases, inl, inr, ◌⊎◌, ◌↔◌, ◌==◌, sym, ◌∙◌,
}
use sonic_snmpagent.Constants.{internet_prefix}
use sonic_snmpagent.Struct.{Endian, pack}
use sonic_snmpagent.Struct.Total.{pack_one_total, pack_longs_total}
use sonic_snmpagent.Encodings.Oid.{
  ObjectIdentifier, IsPackable, eq_tuple, strip, to_tuple, from_iterable, to_bytes,
}

pub eq_tuple_sound : (xs ys : List ℕ) → eq_tuple xs ys ≡ true → xs ≡ ys
unfolding eq_tuple
eq_tuple_sound [] [] h = refl
eq_tuple_sound [] (y ∷ ys) h = cc
eq_tuple_sound (x ∷ xs) [] h = cc
eq_tuple_sound (x ∷ xs) (y ∷ ys) h = ground (arith, eq_tuple_sound xs ys)

pub eq_tuple_refl : (xs : List ℕ) → eq_tuple xs xs ≡ true
unfolding eq_tuple
eq_tuple_refl [] = refl
eq_tuple_refl (x ∷ xs) = ground (arith, eq_tuple_refl xs)

-- The tuples of the numbers behind 1.3.6.1 that lose the prefix.
strip_cases :
    (rest : List ℕ) (o : ObjectIdentifier)
    → strip rest ≡ ok o
    → ((to_tuple o ≡ internet_prefix ++ rest) × ((tail : List ℕ) → rest ≢ 0 ∷ tail))
      ⊎ ((tail : List ℕ) × (rest ≡ 0 ∷ tail) × (to_tuple o ≡ tail))
unfolding strip to_tuple
strip_cases [] o h = cc
strip_cases (p ∷ subids) o h = elim (Bool-cases (p == 0)) [
  | inl z ↦ inr (subids, ground arith, ground arith)
  | inr z ↦ inl (ground arith, λ tail e. ground arith)
]

starts_with_prefix :
    (subids : List ℕ)
    → eq_tuple (take 4 subids) internet_prefix ≡ true
    → subids ≡ internet_prefix ++ drop 4 subids
starts_with_prefix subids e =
    sym (take-append-drop 4 subids)
    ∙ ap (λ r. r ++ drop 4 subids) (eq_tuple_sound (take 4 subids) internet_prefix e)

strip_fails : (rest : List ℕ) → strip rest ≡ err index_error → rest ≡ []
unfolding strip
strip_fails [] h = refl
strip_fails (p ∷ subids) h = cc

-- Another tuple is none that the prefix and a zero begin.
not_prefixed :
    (subids tail : List ℕ)
    → eq_tuple (take 4 subids) internet_prefix ≡ false
    → subids ≢ internet_prefix ++ (0 ∷ tail)
not_prefixed subids tail e h =
    let prefixed : eq_tuple internet_prefix internet_prefix ≡ false = rw h at e in
    cc (eq_tuple_refl internet_prefix, prefixed)

-- An OID built from a tuple 1.3.6.1.0.x stands for x alone, and one built from any other tuple for
-- that tuple.
pub to_tuple-from_iterable :
    (subids : List ℕ) (o : ObjectIdentifier)
    → from_iterable subids ≡ ok o
    → ((to_tuple o ≡ subids) × ((tail : List ℕ) → subids ≢ internet_prefix ++ (0 ∷ tail)))
      ⊎ ((tail : List ℕ) × (subids ≡ internet_prefix ++ (0 ∷ tail)) × (to_tuple o ≡ tail))
unfolding from_iterable
to_tuple-from_iterable subids o h = elim (Bool-cases (eq_tuple (take 4 subids) internet_prefix)) [
  | inl e ↦
      let split = starts_with_prefix subids e in
      elim (strip_cases (drop 4 subids) o (rw e at h)) [
        | inl (q, other) ↦ inl (q ∙ sym split, λ tail p. other tail (ap (drop 4) p))
        | inr (tail, p, q) ↦ inr (tail, split ∙ ap (λ r. internet_prefix ++ r) p, q)
      ]
  | inr e ↦ inl (unfold to_tuple in ground arith, λ tail. not_prefixed subids tail e)
]

-- `from_iterable` fails on the tuple 1.3.6.1 alone.
pub from_iterable_fails :
    (subids : List ℕ) → (from_iterable subids ≡ err index_error) ↔ (subids ≡ internet_prefix)
unfolding from_iterable
from_iterable_fails subids = (fails, succeeds)
  where
    fails : from_iterable subids ≡ err index_error → subids ≡ internet_prefix
    fails h = elim (Bool-cases (eq_tuple (take 4 subids) internet_prefix)) [
      | inl e ↦
          starts_with_prefix subids e
          ∙ ap (λ r. internet_prefix ++ r) (strip_fails (drop 4 subids) (rw e at h))
      | inr e ↦ ground arith
    ]

    succeeds : subids ≡ internet_prefix → from_iterable subids ≡ err index_error
    succeeds h = rw h (unfold eq_tuple strip in refl)

-- An identifier whose fields fit can be packed, in both byte orders.
pub to_bytes_total :
    (e : Endian) (o : ObjectIdentifier) → IsPackable o → (bs : List ℕ) × (to_bytes e o ≡ ok bs)
unfolding to_bytes pack
to_bytes_total e o h =
    let (a, pa) = pack_one_total e 1 o.n_subid h.n_subid in
    let (b, pb) = pack_one_total e 1 o.prefix_ h.prefix_ in
    let (c, pc) = pack_one_total e 1 o.include h.include in
    let (d, pd) = pack_one_total e 1 o.reserved h.reserved in
    let (s, ps) = pack_longs_total e o.subids h.subids in
    ((a ++ (b ++ (c ++ (d ++ [])))) ++ s, rw (pa, pb, pc, pd, ps))
