-- ===== src/Order/Lex.antt =====
-- The lexicographic order is a total order, and how it goes with prefixes.
use sonic_snmpagent.Prelude.{ℕ, ◌<◌, ◌≡◌, ◌⊎◌, inl, inr, refl, sym, ap₂, arith, List, [], ◌∷◌, ◌++◌}
use sonic_snmpagent.Order.{lt_tuple, ◌≺◌, ◌≼◌, IsPrefixOf}

pub ≺_irrefl : (xs : List ℕ) → xs ≼ xs
unfolding lt_tuple
≺_irrefl [] = refl
≺_irrefl (x ∷ xs) = ground (arith, ≺_irrefl xs)

pub ≺_trans : (xs ys zs : List ℕ) → xs ≺ ys → ys ≺ zs → xs ≺ zs
unfolding lt_tuple
≺_trans [] [] zs p q = cc
≺_trans [] (y ∷ ys) [] p q = cc
≺_trans [] (y ∷ ys) (z ∷ zs) p q = refl
≺_trans (x ∷ xs) [] zs p q = cc
≺_trans (x ∷ xs) (y ∷ ys) [] p q = cc
≺_trans (x ∷ xs) (y ∷ ys) (z ∷ zs) p q = ground (arith, ≺_trans xs ys zs)

pub ≺_cases : (xs ys : List ℕ) → (xs ≺ ys) ⊎ (xs ≡ ys) ⊎ (ys ≺ xs)
unfolding lt_tuple
≺_cases [] [] = inr (inl refl)
≺_cases [] (y ∷ ys) = inl refl
≺_cases (x ∷ xs) [] = inr (inr refl)
≺_cases (x ∷ xs) (y ∷ ys) = ground (arith, ≺_cases xs ys)

pub ≼_of_lt : (xs ys : List ℕ) → xs ≺ ys → xs ≼ ys
unfolding lt_tuple
≼_of_lt [] [] p = refl
≼_of_lt [] (y ∷ ys) p = refl
≼_of_lt (x ∷ xs) [] p = cc
≼_of_lt (x ∷ xs) (y ∷ ys) p = ground (arith, ≼_of_lt xs ys)

pub ≼_cases : (xs ys : List ℕ) → xs ≼ ys → (xs ≺ ys) ⊎ (xs ≡ ys)
≼_cases xs ys p = ground (arith, ≺_cases xs ys)

pub ≼_trans : (xs ys zs : List ℕ) → xs ≼ ys → ys ≼ zs → xs ≼ zs
≼_trans xs ys zs p q = elim (≼_cases xs ys p) [
  | inr e ↦ rw e q
  | inl l ↦ elim (≼_cases ys zs q) [
    | inr e ↦ rw (← e) p
    | inl m ↦ ≼_of_lt xs zs (≺_trans xs ys zs l m)
  ]
]

pub ≺_≼_trans : (xs ys zs : List ℕ) → xs ≺ ys → ys ≼ zs → xs ≺ zs
≺_≼_trans xs ys zs l q = elim (≼_cases ys zs q) [
  | inr e ↦ rw (← e) l
  | inl m ↦ ≺_trans xs ys zs l m
]

pub ≼_≺_trans : (xs ys zs : List ℕ) → xs ≼ ys → ys ≺ zs → xs ≺ zs
≼_≺_trans xs ys zs p m = elim (≼_cases xs ys p) [ inr e ↦ rw e m | inl l ↦ ≺_trans xs ys zs l m ]

pub ≼-append : (xs ys : List ℕ) → xs ≼ xs ++ ys
unfolding lt_tuple
≼-append [] [] = refl
≼-append [] (y ∷ ys) = refl
≼-append (x ∷ xs) ys = ground (arith, ≼-append xs ys)

-- A common front part does not count.
pub lt_tuple-append : (p xs ys : List ℕ) → lt_tuple (p ++ xs) (p ++ ys) ≡ lt_tuple xs ys
unfolding lt_tuple
lt_tuple-append [] xs ys = refl
lt_tuple-append (x ∷ p) xs ys = ground (arith, lt_tuple-append p xs ys)

≺-cons : (x y : ℕ) (xs ys : List ℕ) → x ∷ xs ≺ y ∷ ys → (x < y) ⊎ ((x ≡ y) × (xs ≺ ys))
unfolding lt_tuple
≺-cons x y xs ys l = ground arith

-- Where neither of two tuples is a prefix of the other, what follows does not count.
pub ≺-append : (p q xs ys : List ℕ) → p ≺ q → (IsPrefixOf p q → ⊥) → p ++ xs ≺ q ++ ys
unfolding lt_tuple
≺-append [] [] xs ys l n = cc
≺-append [] (y ∷ q) xs ys l n = absurd (n ((y ∷ q), refl))
≺-append (x ∷ p) [] xs ys l n = cc
≺-append (x ∷ p) (y ∷ q) xs ys l n = elim (≺-cons x y p q l) [
  | inl less ↦ ground arith
  | inr (same, l') ↦
      let ih = ≺-append p q xs ys l' (λ (rest, e). n (rest, ap₂ ◌∷◌ (sym same) e)) in
      ground (arith, ih)
]

-- A tuple between a prefix of `s` and `s` begins with that prefix.
pub IsPrefixOf-between : (p q rest : List ℕ) → p ≼ q → q ≼ p ++ rest → IsPrefixOf p q
unfolding lt_tuple
IsPrefixOf-between [] q rest l m = (q, refl)
IsPrefixOf-between (x ∷ p) [] rest l m = cc
IsPrefixOf-between (x ∷ p) (y ∷ q) rest l m =
    let (same, l', m') = parts in
    let (tail, e) = IsPrefixOf-between p q rest l' m' in (tail, ap₂ ◌∷◌ same e)
  where
    parts : (y ≡ x) × (p ≼ q) × (q ≼ p ++ rest)
    parts = ground arith
