-- ===== src/Mib/Successor/Under.antt =====
-- The first part of `get_next`: the entry under which the start stands.
use sonic_snmpagent.Prelude.{ℕ, ◌≡◌, inl, inr, sym, ◌∙◌, arith, List, ◌++◌, none, some, Bool-cases}
use mathlib.Core.Path.{subst}
use sonic_snmpagent.Order.{◌≺◌, ◌≼◌, lt_tuple, In}
use sonic_snmpagent.Order.Lex.{≼_of_lt, ≼_≺_trans, ≼-append, IsPrefixOf-between, lt_tuple-append}
use sonic_snmpagent.Mib.Entry.{get_next}
use sonic_snmpagent.Mib.Table.{MibTable, find_parent_prefix}
use sonic_snmpagent.Mib.Find.{find_parent_prefix_iff}
use sonic_snmpagent.Mib.Successor.{Holds, IsView, IsUnder}
use sonic_snmpagent.Mib.Successor.Walk.{≼_apart}

module _ (t : MibTable) (View : List ℕ → List ℕ → Type 0) (v : IsView t View) (s : List ℕ) where
  -- A name above the start whose prefix is not above it stands under the start's own entry.
  pub own_prefix :
      (m : List ℕ) (u : IsUnder View t.prefixes m)
      → s ≺ m
      → u.prefix ≼ s
      → find_parent_prefix t s ≡ some u.prefix
  own_prefix m u l p = (find_parent_prefix_iff t s u.prefix v.free).1 (
    u.there,
    IsPrefixOf-between u.prefix s u.sub_id p
        (≼_of_lt s (u.prefix ++ u.sub_id) (subst (λ z. s ≺ z) u.joined l)),
  )

  -- If the search finds no prefix, or its entry has no key behind the start, every name above the
  -- start has a prefix above the start.
  pub above_if_none :
      find_parent_prefix t s ≡ none
      → (m : List ℕ) (u : IsUnder View t.prefixes m) → s ≺ m
      → s ≺ u.prefix
  above_if_none f m u l = ground (arith, own_prefix m u l)

  module _ (p sub : List ℕ) (found : find_parent_prefix t s ≡ some p) (e : s ≡ p ++ sub) where
    behind_sub :
        (m : List ℕ) (u : IsUnder View t.prefixes m)
        → s ≺ m
        → u.prefix ≼ s
        → (p ≡ u.prefix) × (sub ≺ u.sub_id)
    behind_sub m u l q =
        let same : p ≡ u.prefix = cc (own_prefix m u l q, found) in
        (
          same,
          sym (lt_tuple-append p sub u.sub_id)
              ∙ subst (λ z. z ≺ p ++ u.sub_id) e
                  (subst (λ z. s ≺ z ++ u.sub_id) (sym same) (subst (λ z. s ≺ z) u.joined l)),
        )

    pub above_if_last :
        (h : Holds t p (View p))
        → get_next h.entry sub ≡ none
        → (m : List ℕ) (u : IsUnder View t.prefixes m) → s ≺ m
        → s ≺ u.prefix
    above_if_last h g m u l = elim (Bool-cases (lt_tuple s u.prefix)) [
      | inl above ↦ above
      | inr not_above ↦
          let (same, behind) = behind_sub m u l not_above in
          let last : u.sub_id ≼ sub =
            h.lawful.next_none sub u.sub_id g (subst (λ z. View z u.sub_id) (sym same) u.key) in
          cc
    ]

    -- The successor under the entry is the successor among all names.
    pub least_under :
        (h : Holds t p (View p)) (k : List ℕ)
        → In p t.prefixes
        → get_next h.entry sub ≡ some k
        → (m : List ℕ) (u : IsUnder View t.prefixes m) → s ≺ m
        → p ++ k ≼ m
    least_under h k mp g m u l = elim (Bool-cases (lt_tuple s u.prefix)) [
      | inl above ↦ rw u.joined (
          ≼_apart t.prefixes p u.prefix k u.sub_id v.free mp u.there
            (≼_≺_trans p s u.prefix (rw e (≼-append p sub)) above))
      | inr not_above ↦
          let (same, behind) = behind_sub m u l not_above in
          let (_, _, low) = h.lawful.next_some sub k g in
          rw (u.joined, ← same, lt_tuple-append p u.sub_id k)
            (low u.sub_id (subst (λ z. View z u.sub_id) (sym same) u.key) behind)
    ]
