-- ===== src/Mib/Find.antt =====
-- `_find_parent_prefix` of src/ax_interface/mib.py against the prefixes of a table.
use sonic_snmpagent.Prelude.{
  ℕ, ◌≡◌, ◌↔◌, inl, inr, refl, sym, ap, ◌∙◌, arith, List, ◌++◌, length, take, drop, Option, none,
  some, Bool-cases, Option-cases, take-append, take-append-drop,
}
use sonic_snmpagent.Encodings.Oid.{eq_tuple}
use sonic_snmpagent.Encodings.Oid.Names.{eq_tuple_sound, eq_tuple_refl}
use sonic_snmpagent.Order.{◌≺◌, ◌≼◌, IsPrefixOf, In, sorted, last?}
use sonic_snmpagent.Order.Lex.{≼-append, IsPrefixOf-between}
use sonic_snmpagent.Order.Sorting.{
  preceding, sorted-IsSorted, In-sorted, All-In, last?-none, last?-some,
}
use sonic_snmpagent.Mib.Table.{MibTable, parent_of, find_parent_prefix}

-- No registered prefix goes on from another one.
abbrev pub IsPrefixFree : List (List ℕ) → Type 0
IsPrefixFree ps = (p q : List ℕ) → In p ps → In q ps → IsPrefixOf p q → p ≡ q

parent_of_sound :
    (item p : List ℕ) (o : Option (List ℕ))
    → parent_of item o ≡ some p
    → (o ≡ some p) × IsPrefixOf p item
unfolding parent_of
parent_of_sound item p none h = cc
parent_of_sound item p (some q) h = elim (Bool-cases (eq_tuple q (take (length q) item))) [
  | inl e ↦
      let same : q ≡ p = ground arith in
      (
        ap some same,
        (
          drop (length q) item,
          sym (take-append-drop (length q) item)
              ∙ ap (λ z. z ++ drop (length q) item)
                  (sym (eq_tuple_sound q (take (length q) item) e) ∙ same),
        ),
      )
  | inr e ↦ cc (rw e at h)
]

parent_of_prefix : (q rest : List ℕ) → parent_of (q ++ rest) (some q) ≡ some q
unfolding parent_of
parent_of_prefix q rest = rw (take-append (length q) q rest refl, eq_tuple_refl q)

module _ (t : MibTable) where
  abbrev oids : List (List ℕ)
  oids = sorted t.prefixes

  -- What is found is registered, and the OID stands under it.
  pub find_sound :
      (item p : List ℕ)
      → find_parent_prefix t item ≡ some p
      → In p t.prefixes × IsPrefixOf p item × ((q : List ℕ) → In q t.prefixes → q ≼ item → q ≼ p)
  unfolding find_parent_prefix
  find_sound item p h =
      let (e, under) = parent_of_sound item p (last? (preceding oids item)) h in
      let (there, below, great) = last?-some oids item p (sorted-IsSorted t.prefixes) e in
      ((In-sorted p t.prefixes).0 there, under, λ q m l. great q ((In-sorted q t.prefixes).1 m) l)

  find_complete :
      (item p : List ℕ)
      → IsPrefixFree t.prefixes
      → In p t.prefixes
      → IsPrefixOf p item
      → find_parent_prefix t item ≡ some p
  unfolding find_parent_prefix
  find_complete item p free m (rest, e) = elim (Option-cases (last? (preceding oids item))) [
    | inl none_found ↦
        let above : item ≺ p =
          All-In (λ z. item ≺ z) p oids
            (last?-none oids item (sorted-IsSorted t.prefixes) none_found)
            ((In-sorted p t.prefixes).1 m) in
        absurd (clash above (rw e (≼-append p rest)))
    | inr (q, found) ↦
        let (there, below, great) = last?-some oids item q (sorted-IsSorted t.prefixes) found in
        let reach : IsPrefixOf p q =
          IsPrefixOf-between p q rest
            (great p ((In-sorted p t.prefixes).1 m) (rw e (≼-append p rest))) (rw (← e) below) in
        let same : p ≡ q = free p q m ((In-sorted q t.prefixes).0 there) reach in
        rw (found, e, ← same) (parent_of_prefix p rest)
  ]
    where
      clash : item ≺ p → p ≼ item → ⊥
      clash a b = cc

-- In a table whose prefixes do not extend one another the search finds exactly the registered
-- prefix that the OID stands under.
pub find_parent_prefix_iff :
    (t : MibTable) (item p : List ℕ)
    → IsPrefixFree t.prefixes
    → (find_parent_prefix t item ≡ some p) ↔ (In p t.prefixes × IsPrefixOf p item)
find_parent_prefix_iff t item p free = (
  λ h. let (m, under, _) = find_sound t item p h in (m, under),
  λ (m, under). find_complete t item p free m under,
)
