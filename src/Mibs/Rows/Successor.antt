-- ===== src/Mibs/Rows/Successor.antt =====
-- The search of the updaters as the successor among the sub-identifiers in their list.
use sonic_snmpagent.Prelude.{
  ℕ, zero, suc, ◌≡◌, ◌⊎◌, inl, inr, refl, arith, List, [], ◌∷◌, length, drop, Option, none, some,
  ok, ◌>>=◌, leb, if◌then◌else◌, Bool-cases,
}
use sonic_snmpagent.Order.{◌≺◌, ◌≼◌, In, bisect_right, lt_tuple}
use sonic_snmpagent.Order.Lex.{≺_irrefl}
use sonic_snmpagent.Order.Sorting.{
  IsSorted, remaining, remaining_above, remaining_complete, remaining-IsSorted, remaining-In,
  All-In,
}
use sonic_snmpagent.Mibs.Rows.{item_at, next_sub_id}

-- The head of what stands behind the cut.
unfoldable pub head? : List (List ℕ) → Option (List ℕ)
head? [] = none
head? (x ∷ xs) = some x

next_at :
    (sub_ids : List (List ℕ)) (right : ℕ)
    → (if leb (length sub_ids) right
        then ok none
        else (do next ← item_at sub_ids right; ok (some next)))
      ≡ ok (head? (drop right sub_ids))
unfolding item_at head?
next_at [] zero = refl
next_at [] (suc n) = ground arith
next_at (x ∷ xs) zero = ground arith
next_at (x ∷ xs) (suc n) = ground (arith, next_at xs n)

pub next_sub_id_lem :
    (sub_ids : List (List ℕ)) (s : List ℕ)
    → next_sub_id sub_ids s ≡ ok (head? (remaining sub_ids s))
unfolding next_sub_id
next_sub_id_lem sub_ids s = next_at sub_ids (bisect_right sub_ids s)

head?-some :
    (xs : List (List ℕ)) (k : List ℕ)
    → IsSorted xs
    → head? xs ≡ some k
    → In k xs × ((m : List ℕ) → In m xs → k ≼ m)
unfolding head?
head?-some [] k s h = cc
head?-some (x ∷ xs) k (a, s) h = let same : k ≡ x = cc in (inl same, least same)
  where
    least : k ≡ x → (m : List ℕ) → (m ≡ x) ⊎ In m xs → k ≼ m
    least same m (inl e) = rw (same, e) (≺_irrefl x)
    least same m (inr i) = rw same (All-In (λ z. x ≼ z) m xs a i)

head?-none : (xs : List (List ℕ)) (m : List ℕ) → head? xs ≡ none → In m xs → ⊥
unfolding head?
head?-none [] m h i = i
head?-none (x ∷ xs) m h i = cc

module _ (sub_ids : List (List ℕ)) (order : IsSorted sub_ids) where
  pub next_sub_id-some :
      (s k : List ℕ)
      → next_sub_id sub_ids s ≡ ok (some k)
      → In k sub_ids × (s ≺ k) × ((m : List ℕ) → In m sub_ids → s ≺ m → k ≼ m)
  next_sub_id-some s k h =
      let h' : head? (remaining sub_ids s) ≡ some k = cc (next_sub_id_lem sub_ids s) in
      let (there, least) =
        head?-some (remaining sub_ids s) k (remaining-IsSorted sub_ids s order) h' in
      (
        remaining-In sub_ids s k there,
        All-In (λ z. s ≺ z) k (remaining sub_ids s) (remaining_above sub_ids s order) there,
        λ m i l. least m (remaining_complete sub_ids s m i l),
      )

  pub next_sub_id-none : (s m : List ℕ) → next_sub_id sub_ids s ≡ ok none → In m sub_ids → m ≼ s
  next_sub_id-none s m h i = elim (Bool-cases (lt_tuple s m)) [
    | inl l ↦ absurd (
        head?-none (remaining sub_ids s) m (cc (next_sub_id_lem sub_ids s))
          (remaining_complete sub_ids s m i l))
    | inr e ↦ e
  ]
