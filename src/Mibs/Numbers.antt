-- ===== src/Mibs/Numbers.antt =====
-- Sorted numbers, and the tuples of one number that the tables make of them.
use sonic_snmpagent.Prelude.{
  ℕ, ◌≡◌, inl, inr, refl, ap, arith, List, [], ◌∷◌, map, ltb, if◌then◌else◌, Bool-cases,
}
use sonic_snmpagent.Order.{insert_sorted, sorted, lt_tuple}

-- `sorted(numbers)`
unfoldable pub insert_nat : ℕ → List ℕ → List ℕ
insert_nat n [] = n ∷ []
insert_nat n (x ∷ xs) = let rest = insert_nat n xs in if ltb x n then x ∷ rest else n ∷ x ∷ xs

unfoldable pub sort_nat : List ℕ → List ℕ
unfolding insert_nat
sort_nat [] = []
sort_nat (x ∷ xs) = insert_nat x (sort_nat xs)

-- `(i,)`
abbrev pub single : ℕ → List ℕ
single n = n ∷ []

lt-single : (a b : ℕ) → lt_tuple (single a) (single b) ≡ ltb a b
unfolding lt_tuple
lt-single a b = ground arith

map-insert_nat :
    (n : ℕ) (xs : List ℕ) → map single (insert_nat n xs) ≡ insert_sorted (single n) (map single xs)
unfolding insert_nat insert_sorted
map-insert_nat n [] = refl
map-insert_nat n (x ∷ xs) = elim (Bool-cases (ltb x n)) [
  | inl e ↦ rw (lt-single x n, e) (ap (λ ys. single x ∷ ys) (map-insert_nat n xs))
  | inr e ↦ rw (lt-single x n, e) refl
]

-- The numbers sorted and made tuples are the tuples sorted.
pub map-sort_nat : (xs : List ℕ) → map single (sort_nat xs) ≡ sorted (map single xs)
unfolding sort_nat sorted
map-sort_nat [] = refl
map-sort_nat (x ∷ xs) = rw (map-insert_nat x (sort_nat xs), map-sort_nat xs) refl
