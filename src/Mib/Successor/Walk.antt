-- ===== src/Mib/Successor/Walk.antt =====
-- The loop of `get_next` over the prefixes behind the start.
use sonic_snmpagent.Prelude.{
  ℕ, ◌≡◌, inl, inr, refl, sym, ap, ◌∙◌, arith, List, [], ◌∷◌, ◌++◌, length, none, some, Result, ok,
  Bool-cases, Option-cases, All, take-all,
}
use mathlib.Core.Path.{subst}
use sonic_snmpagent.Encodings.Oid.{ObjectIdentifier}
use sonic_snmpagent.Encodings.Value.{Data, ValueRepresentation, from_typecast}
use sonic_snmpagent.Order.{◌≺◌, ◌≼◌, lt_tuple, In}
use sonic_snmpagent.Order.Lex.{
  ≺_irrefl, ≼_cases, ≺_≼_trans, ≼_of_lt, ≼_trans, ≼-append, ≺-append, lt_tuple-append,
}
use sonic_snmpagent.Order.Sorting.{IsSorted, All-In}
use sonic_snmpagent.Mib.Entry.{first, call, replace_sub_id}
use sonic_snmpagent.Mib.Table.{MibTable, lookup, walk, walk_entry}
use sonic_snmpagent.Mib.Find.{IsPrefixFree}
use sonic_snmpagent.Mib.Successor.{Holds, IsView, IsUnder, Answer, successor, exhausted}

-- Names under different registered prefixes are ordered as the prefixes are.
pub ≼_apart :
    (ps : List (List ℕ)) (p q xs ys : List ℕ)
    → IsPrefixFree ps
    → In p ps
    → In q ps
    → p ≺ q
    → p ++ xs ≼ q ++ ys
≼_apart ps p q xs ys free mp mq l =
    ≼_of_lt (p ++ xs) (q ++ ys) (≺-append p q xs ys l (λ under. distinct (free p q mp mq under)))
  where
    distinct : p ≡ q → ⊥
    distinct e = ground (arith, ≺_irrefl p, ap (λ z. lt_tuple p z) e)

module _ (t : MibTable) (View : List ℕ → List ℕ → Type 0) (v : IsView t View) where
  -- One round of the loop at an entry that has a first key.
  walk_at_key :
      (o k : List ℕ) (d : Data) (h : Holds t o (View o)) (later : Result ValueRepresentation)
      → first h.entry ≡ ok (some k)
      → call h.entry k ≡ ok (some d)
      → walk_entry (lookup o t.entries) o later ≡ from_typecast h.entry.value_type (o ++ k) d
  unfolding walk_entry replace_sub_id
  walk_at_key o k d h later f c =
      rw (h.found, f, c, h.prefixlen, take-all (length o) o (omega arith))

  walk_at_none :
      (o : List ℕ) (h : Holds t o (View o)) (later : Result ValueRepresentation)
      → first h.entry ≡ ok none
      → walk_entry (lookup o t.entries) o later ≡ later
  unfolding walk_entry
  walk_at_none o h later f = rw (h.found, f)

  module _ (start : ObjectIdentifier) (s end : List ℕ) where
    abbrev Above : List ℕ → Type 0
    Above m = s ≺ m

    abbrev Walked : List (List ℕ) → Result ValueRepresentation → Type 0
    Walked os result = Answer t View os Above start end result

    -- The least name under `o` comes before every name under the prefixes behind `o`.
    least :
        (o k : List ℕ) (os : List (List ℕ))
        → In o t.prefixes
        → ((q : List ℕ) → In q os → In q t.prefixes)
        → All (λ x. o ≼ x) os
        → ((j : List ℕ) → View o j → k ≼ j)
        → (m : List ℕ) → IsUnder View (o ∷ os) m
        → o ++ k ≼ m
    least o k os mo sub a low m u = elim u.there [
      | inl e ↦
          rw (u.joined, e, lt_tuple-append o u.sub_id k)
            (low u.sub_id (subst (λ z. View z u.sub_id) e u.key))
      | inr there ↦ elim (≼_cases o u.prefix (All-In (λ x. o ≼ x) u.prefix os a there)) [
        | inl l ↦
            rw u.joined (≼_apart t.prefixes o u.prefix k u.sub_id v.free mo (sub u.prefix there) l)
        | inr e ↦
            rw (u.joined, ← e, lt_tuple-append o u.sub_id k)
              (low u.sub_id (subst (λ z. View z u.sub_id) (sym e) u.key))
      ]
    ]

    behind :
        (o : List ℕ) (os : List (List ℕ)) (m : List ℕ)
        → ((k : List ℕ) → View o k → ⊥)
        → IsUnder View (o ∷ os) m
        → IsUnder View os m
    behind o os m keyless u = record {
      prefix = u.prefix;
      sub_id = u.sub_id;
      there = elim u.there [
        | inl e ↦ absurd (keyless u.sub_id (subst (λ z. View z u.sub_id) e u.key))
        | inr there ↦ there
      ];
      key = u.key;
      joined = u.joined;
    }

    -- An entry with no key changes nothing.
    widen :
        (o : List ℕ) (os : List (List ℕ)) {result : Result ValueRepresentation}
        → ((k : List ℕ) → View o k → ⊥)
        → Walked os result
        → Walked (o ∷ os) result
    widen o os keyless (successor name type_ d sv ab low e) =
        successor name type_ d sv ab (λ m u am. low m (behind o os m keyless u) am) e
    widen o os keyless (exhausted low e) =
        exhausted (λ m u am. low m (behind o os m keyless u) am) e

    walk_found :
        (o : List ℕ) (os : List (List ℕ)) (later : Result ValueRepresentation)
        → s ≺ o
        → In o t.prefixes
        → ((q : List ℕ) → In q os → In q t.prefixes)
        → All (λ x. o ≼ x) os
        → Walked os later
        → Walked (o ∷ os) (walk_entry (lookup o t.entries) o later)
    walk_found o os later so mo sub a rest =
        let h = v.holds o mo in
        let (key1, f) = h.lawful.first_ok in
        elim (Option-cases key1) [
          | inl e ↦
              rw (walk_at_none o h later (f ∙ ap ok e))
                (widen o os (λ j. h.lawful.first_none j (f ∙ ap ok e)) rest)
          | inr (k, e) ↦
              let (key, low) = h.lawful.first_some k (f ∙ ap ok e) in
              let (d, c) = h.lawful.has_value k key in
              successor (o ++ k) h.entry.value_type d
                (record {
                  prefix = o;
                  sub_id = k;
                  entry = h.entry;
                  there = mo;
                  key = key;
                  joined = refl;
                  found = h.found;
                  typed = refl;
                  value = c;
                })
                (≺_≼_trans s o (o ++ k) so (≼-append o k)) (λ m u am. least o k os mo sub a low m u)
                (walk_at_key o k d h later (f ∙ ap ok e) c)
        ]

    -- Over sorted prefixes above the start the loop answers with the least name, or with the end
    -- of the view.
    pub walk-Answer :
        (os : List (List ℕ))
        → IsSorted os
        → All (λ o. s ≺ o) os
        → ((q : List ℕ) → In q os → In q t.prefixes)
        → Walked os (walk t start end os)
    unfolding walk
    walk-Answer [] so ab sub = exhausted (λ m u am. absurd u.there) refl
    walk-Answer (o ∷ os) (a, so) (s-o, ab) sub = elim (Bool-cases (lt_tuple o end)) [
      | inl e ↦ rw e (
          walk_found o os (walk t start end os) s-o (sub o (inl refl)) (λ q m. sub q (inr m)) a
            (walk-Answer os so ab (λ q m. sub q (inr m))))
      | inr e ↦ rw e (exhausted (λ m u am. beyond m u e) refl)
    ]
      where
        beyond : (m : List ℕ) → IsUnder View (o ∷ os) m → end ≼ o → end ≼ m
        beyond m u e =
            let from_o : o ≼ u.prefix = elim u.there [
              | inl same ↦ rw same (≺_irrefl o)
              | inr there ↦ All-In (λ x. o ≼ x) u.prefix os a there
            ] in
            ≼_trans end o m e (
              rw u.joined
                (≼_trans o u.prefix (u.prefix ++ u.sub_id) from_o (≼-append u.prefix u.sub_id)))
