-- ===== src/Order.antt =====
-- Python's order on tuples of numbers, and what src/ax_interface/mib.py uses of `sorted` and
-- `bisect`.
pub mod Lex
pub mod Sorting
use sonic_snmpagent.Prelude.{
  ℕ, zero, suc, ◌≡◌, ◌⊎◌, List, [], ◌∷◌, ◌++◌, Option, none, some, Bool, true, false, ◌&&◌, ◌||◌,
  ltb, ◌==◌, if◌then◌else◌,
}

-- `xs < ys`
unfoldable pub lt_tuple : List ℕ → List ℕ → Bool
lt_tuple [] [] = false
lt_tuple [] (y ∷ ys) = true
lt_tuple (x ∷ xs) [] = false
lt_tuple (x ∷ xs) (y ∷ ys) = ltb x y || (x == y && lt_tuple xs ys)

infix 50 ◌≺◌ ◌≼◌
abbrev pub ◌≺◌ : List ℕ → List ℕ → Type 0
xs ≺ ys = lt_tuple xs ys ≡ true

abbrev pub ◌≼◌ : List ℕ → List ℕ → Type 0
xs ≼ ys = lt_tuple ys xs ≡ false

-- `sorted(oids)`
unfoldable pub insert_sorted : List ℕ → List (List ℕ) → List (List ℕ)
insert_sorted o [] = o ∷ []
insert_sorted o (x ∷ xs) = if lt_tuple x o then x ∷ insert_sorted o xs else o ∷ x ∷ xs

unfoldable pub sorted : List (List ℕ) → List (List ℕ)
unfolding insert_sorted
sorted [] = []
sorted (o ∷ os) = insert_sorted o (sorted os)

-- `bisect.bisect_right(oids, item)` on a sorted list: the index behind the last element that is
-- not above `item`.
unfoldable pub bisect_right : List (List ℕ) → List ℕ → ℕ
unfolding lt_tuple
bisect_right [] item = 0
bisect_right (o ∷ os) item = if lt_tuple item o then 0 else suc (bisect_right os item)

-- `xs[-1]`
unfoldable pub last? {ℓ} : {A : Type ℓ} → List A → Option A
last? [] = none
last? (x ∷ []) = some x
last? (x ∷ y ∷ ys) = last? (y ∷ ys)

-- Membership with its position.
abbrev pub In : List ℕ → List (List ℕ) → Type 0
In a [] = ⊥
In a (x ∷ xs) = (a ≡ x) ⊎ In a xs

abbrev pub IsPrefixOf : List ℕ → List ℕ → Type 0
IsPrefixOf p q = (rest : List ℕ) × (q ≡ p ++ rest)
