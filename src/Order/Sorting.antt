-- ===== src/Order/Sorting.antt =====
-- `sorted`, and the cut that `bisect_right` finds.
use sonic_snmpagent.Prelude.{
  ℕ, ◌≡◌, ◌⊎◌, inl, inr, refl, ◌↔◌, sym, ap, arith, List, [], ◌∷◌, none, some, All, take, drop,
  Bool-cases,
}
use mathlib.Core.Path.{subst, ◌∙◌}
use sonic_snmpagent.Order.{lt_tuple, ◌≺◌, ◌≼◌, In, insert_sorted, sorted, bisect_right, last?}
use sonic_snmpagent.Order.Lex.{≺_irrefl, ≺_≼_trans, ≼_trans, ≼_of_lt}

abbrev pub IsSorted : List (List ℕ) → Type 0
IsSorted [] = Unit
IsSorted (o ∷ os) = All (λ x. o ≼ x) os × IsSorted os

All-insert_sorted :
    (b o : List ℕ) (xs : List (List ℕ))
    → b ≼ o
    → All (λ x. b ≼ x) xs
    → All (λ x. b ≼ x) (insert_sorted o xs)
unfolding insert_sorted
All-insert_sorted b o [] h a = (h, tt)
All-insert_sorted b o (x ∷ xs) h (hx, a) = elim (Bool-cases (lt_tuple x o)) [
  | inl e ↦ rw e (hx, All-insert_sorted b o xs h a)
  | inr e ↦ rw e (h, (hx, a))
]

All-≼ : (b o : List ℕ) (xs : List (List ℕ)) → b ≼ o → All (λ x. o ≼ x) xs → All (λ x. b ≼ x) xs
All-≼ b o [] h a = tt
All-≼ b o (x ∷ xs) h (hx, a) = (≼_trans b o x h hx, All-≼ b o xs h a)

insert_sorted-IsSorted :
    (o : List ℕ) (xs : List (List ℕ)) → IsSorted xs → IsSorted (insert_sorted o xs)
unfolding insert_sorted
insert_sorted-IsSorted o [] s = (tt, tt)
insert_sorted-IsSorted o (x ∷ xs) (a, s) = elim (Bool-cases (lt_tuple x o)) [
  | inl e ↦ rw e (All-insert_sorted x o xs (≼_of_lt x o e) a, insert_sorted-IsSorted o xs s)
  | inr e ↦ rw e ((e, All-≼ o x xs e a), (a, s))
]

pub sorted-IsSorted : (os : List (List ℕ)) → IsSorted (sorted os)
unfolding sorted
sorted-IsSorted [] = tt
sorted-IsSorted (o ∷ os) = insert_sorted-IsSorted o (sorted os) (sorted-IsSorted os)

swap {ℓ} : {X Y Z : Type ℓ} → X ⊎ (Y ⊎ Z) → Y ⊎ (X ⊎ Z)
swap (inl x) = inr (inl x)
swap (inr (inl y)) = inl y
swap (inr (inr z)) = inr (inr z)

in_tail {ℓ} : {X Y Z : Type ℓ} → (Y → Z) → X ⊎ Y → X ⊎ Z
in_tail f (inl x) = inl x
in_tail f (inr y) = inr (f y)

In-insert_sorted :
    (a o : List ℕ) (xs : List (List ℕ)) → In a (insert_sorted o xs) ↔ ((a ≡ o) ⊎ In a xs)
unfolding insert_sorted
In-insert_sorted a o [] = (λ h. h, λ h. h)
In-insert_sorted a o (x ∷ xs) =
    let ih = In-insert_sorted a o xs in
    elim (Bool-cases (lt_tuple x o)) [
      | inl e ↦ rw e (λ h. swap (in_tail ih.0 h), λ h. in_tail ih.1 (swap h))
      | inr e ↦ rw e (λ h. h, λ h. h)
    ]

pub In-sorted : (a : List ℕ) (os : List (List ℕ)) → In a (sorted os) ↔ In a os
unfolding sorted
In-sorted a [] = (λ h. h, λ h. h)
In-sorted a (o ∷ os) =
    let ih = In-sorted a os in
    let step = In-insert_sorted a o (sorted os) in
    (λ h. in_tail ih.0 (step.0 h), λ h. step.1 (in_tail ih.1 h))

pub All-In {ℓ} : (P : List ℕ → Type ℓ) (a : List ℕ) (xs : List (List ℕ)) → All P xs → In a xs → P a
All-In P a [] h m = absurd m
All-In P a (x ∷ xs) (hx, h) (inl e) = subst P (sym e) hx
All-In P a (x ∷ xs) (hx, h) (inr m) = All-In P a xs h m

last?-cons :
    (x : List ℕ) (t : List (List ℕ))
    → ((last? t ≡ none) × (last? (x ∷ t) ≡ some x))
      ⊎ ((y : List ℕ) × (last? t ≡ some y) × (last? (x ∷ t) ≡ some y))
unfolding last?
last?-cons x [] = inl (refl, refl)
last?-cons x (y ∷ t) = elim (last?-cons y t) [
  | inl (p, q) ↦ inr (y, q, q)
  | inr (z, p, q) ↦ inr (z, q, q)
]

-- The elements of `os` that are not above `item`.
abbrev pub preceding : List (List ℕ) → List ℕ → List (List ℕ)
preceding os item = take (bisect_right os item) os

abbrev pub remaining : List (List ℕ) → List ℕ → List (List ℕ)
remaining os item = drop (bisect_right os item) os

All-≺ : (b o : List ℕ) (xs : List (List ℕ)) → b ≺ o → All (λ x. o ≼ x) xs → All (λ x. b ≺ x) xs
All-≺ b o [] h a = tt
All-≺ b o (x ∷ xs) h (hx, a) = (≺_≼_trans b o x h hx, All-≺ b o xs h a)

-- If nothing precedes `item`, all elements are above it.
pub last?-none :
    (os : List (List ℕ)) (item : List ℕ)
    → IsSorted os
    → last? (preceding os item) ≡ none
    → All (λ x. item ≺ x) os
unfolding bisect_right
last?-none [] item s h = tt
last?-none (o ∷ os) item (a, s) h = elim (Bool-cases (lt_tuple item o)) [
  | inl e ↦ (e, All-≺ item o os e a)
  | inr e ↦ elim (last?-cons o (preceding os item)) [
    | inl (p, q) ↦ ground arith
    | inr (y, p, q) ↦ ground arith
  ]
]

preceding_below :
    (o : List ℕ) (os : List (List ℕ)) (item : List ℕ)
    → o ≼ item
    → preceding (o ∷ os) item ≡ o ∷ preceding os item
unfolding bisect_right
preceding_below o os item e = rw e

last?_above :
    (o : List ℕ) (os : List (List ℕ)) (item : List ℕ)
    → item ≺ o
    → last? (preceding (o ∷ os) item) ≡ none
unfolding bisect_right last?
last?_above o os item e = rw e

last?_nil : (item : List ℕ) → last? (preceding [] item) ≡ none
unfolding bisect_right last?
last?_nil item = refl

above_all :
    (item p q : List ℕ) (os : List (List ℕ)) → All (λ x. item ≺ x) os → In p os → p ≼ item → p ≼ q
above_all item p q os a m l = let bad : item ≺ p = All-In (λ x. item ≺ x) p os a m in cc

-- The last element before the cut is the greatest that is not above `item`.
pub last?-some :
    (os : List (List ℕ)) (item q : List ℕ)
    → IsSorted os
    → last? (preceding os item) ≡ some q
    → In q os × (q ≼ item) × ((p : List ℕ) → In p os → p ≼ item → p ≼ q)
last?-some [] item q s h = cc (last?_nil item)
last?-some (o ∷ os) item q (a, s) h = elim (Bool-cases (lt_tuple item o)) [
  | inl e ↦ cc (last?_above o os item e)
  | inr e ↦
      let h' : last? (o ∷ preceding os item) ≡ some q = rw (preceding_below o os item e) at h in
      elim (last?-cons o (preceding os item)) [
        | inl (p, r) ↦
            let same : q ≡ o = cc (h', r) in
            (inl same, rw same e, λ x m l. greatest x same m l (last?-none os item s p))
        | inr (y, p, r) ↦
            let same : q ≡ y = cc (h', r) in
            let (in_tail', below, great) = last?-some os item q s (p ∙ ap some (sym same)) in
            (inr in_tail', below, λ x m l. later x in_tail' great m l)
      ]
]
  where
    greatest : (x : List ℕ) → q ≡ o → (x ≡ o) ⊎ In x os → x ≼ item → All (λ z. item ≺ z) os → x ≼ q
    greatest x same (inl eq) l above = rw (eq, same) (≺_irrefl o)
    greatest x same (inr m) l above = above_all item x q os above m l

    later :
        (x : List ℕ)
        → In q os
        → ((p : List ℕ) → In p os → p ≼ item → p ≼ q)
        → (x ≡ o) ⊎ In x os
        → x ≼ item
        → x ≼ q
    later x there great (inl eq) l = rw eq (All-In (λ z. o ≼ z) q os a there)
    later x there great (inr m) l = great x m l

-- What stands behind the cut is exactly what is above `item`.
pub remaining_above :
    (os : List (List ℕ)) (item : List ℕ) → IsSorted os → All (λ x. item ≺ x) (remaining os item)
unfolding bisect_right
remaining_above [] item s = tt
remaining_above (o ∷ os) item (a, s) = elim (Bool-cases (lt_tuple item o)) [
  | inl e ↦ rw e (e, All-≺ item o os e a)
  | inr e ↦ rw e (remaining_above os item s)
]

pub remaining_complete :
    (os : List (List ℕ)) (item q : List ℕ) → In q os → item ≺ q → In q (remaining os item)
unfolding bisect_right
remaining_complete [] item q m l = absurd m
remaining_complete (o ∷ os) item q m l = elim (Bool-cases (lt_tuple item o)) [
  | inl e ↦ rw e m
  | inr e ↦ rw e (remaining_complete os item q (deeper m e) l)
]
  where
    deeper : (q ≡ o) ⊎ In q os → o ≼ item → In q os
    deeper (inl same) e = absurd (ground (arith, ap (λ z. lt_tuple item z) same))
    deeper (inr m) e = m

pub remaining-IsSorted :
    (os : List (List ℕ)) (item : List ℕ) → IsSorted os → IsSorted (remaining os item)
unfolding bisect_right
remaining-IsSorted [] item s = tt
remaining-IsSorted (o ∷ os) item (a, s) = elim (Bool-cases (lt_tuple item o)) [
  | inl e ↦ rw e (a, s)
  | inr e ↦ rw e (remaining-IsSorted os item s)
]

pub remaining-In : (os : List (List ℕ)) (item q : List ℕ) → In q (remaining os item) → In q os
unfolding bisect_right
remaining-In [] item q m = m
remaining-In (o ∷ os) item q m = elim (Bool-cases (lt_tuple item o)) [
  | inl e ↦ rw (e, bisect_right) at m
  | inr e ↦ inr (remaining-In os item q (rw (e, bisect_right) at m))
]
