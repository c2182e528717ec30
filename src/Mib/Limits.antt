-- ===== src/Mib/Limits.antt =====
-- `get_next` and `_find_parent_prefix` with nested prefixes and at the end of a range.
use sonic_snmpagent.Prelude.{
  ℕ, ◌≡◌, inl, inr, refl, sym, ◌∙◌, List, [], ◌∷◌, none, some, ok, false, Option-cases, eq→==,
}
use sonic_snmpagent.Constants.{end_of_mib_view}
use sonic_snmpagent.Encodings.Oid.{ObjectIdentifier, to_tuple}
use sonic_snmpagent.Encodings.Range.{SearchRange}
use sonic_snmpagent.Encodings.Value.{Data, from_typecast}
use sonic_snmpagent.Order.{◌≼◌, In, IsPrefixOf, lt_tuple}
use sonic_snmpagent.Order.Lex.{≼_cases, ≼-append}
use sonic_snmpagent.Mib.Entry.{MibEntry, call, get_next, get_sub_id, replace_sub_id}
use sonic_snmpagent.Mib.Table.{
  MibTable, find_parent_prefix, lookup, walk, get_next_value, exception_value, next_under,
  remaining_oids, get_nextvalue,
}
use sonic_snmpagent.Mib.Find.{find_sound}
use sonic_snmpagent.Mib.Successor.Main.{found_first}

≼_antisym : (xs ys : List ℕ) → xs ≼ ys → ys ≼ xs → xs ≡ ys
≼_antisym xs ys p q = elim (≼_cases xs ys p) [ inl l ↦ cc | inr e ↦ e ]

-- Only the greatest registered prefix that is not above an OID is tried: if the OID does not stand
-- under that one, no prefix is found, also where the OID stands under a shorter registered one.
pub find_parent_prefix_hidden :
    (t : MibTable) (item q : List ℕ)
    → In q t.prefixes
    → q ≼ item
    → ((r : List ℕ) → In r t.prefixes → r ≼ item → r ≼ q)
    → (IsPrefixOf q item → ⊥)
    → find_parent_prefix t item ≡ none
find_parent_prefix_hidden t item q there below great apart =
    elim (Option-cases (find_parent_prefix t item)) [
      | inl e ↦ e
      | inr (p, e) ↦
          let (p_there, under, p_great) = find_sound t item p e in
          let same : p ≡ q =
            ≼_antisym p q (great p p_there (rw under.1 (≼-append p under.0)))
              (p_great q there below) in
          absurd (apart (rw (← same) under))
    ]

lt_tuple_null : (xs : List ℕ) → lt_tuple xs [] ≡ false
unfolding lt_tuple
lt_tuple_null [] = refl
lt_tuple_null (x ∷ xs) = refl

walk_null :
    (t : MibTable) (start : ObjectIdentifier) (oids : List (List ℕ))
    → walk t start [] oids ≡ ok (exception_value end_of_mib_view start)
unfolding walk
walk_null t start [] = refl
walk_null t start (oid ∷ oids) = rw (lt_tuple_null oid) refl

-- Under no prefix, a search with the null OID as its end is not unbounded: it finds nothing.
pub get_next_null_end :
    (t : MibTable) (sr : SearchRange)
    → find_parent_prefix t (to_tuple sr.start) ≡ none
    → to_tuple sr.end ≡ []
    → get_next_value t sr ≡ ok (exception_value end_of_mib_view sr.start)
unfolding get_next_value next_under
get_next_null_end t sr f e = rw (f, e) (walk_null t sr.start (remaining_oids t (to_tuple sr.start)))

module _ (t : MibTable) (start : ObjectIdentifier) (p : List ℕ) (e : MibEntry) (k : List ℕ)
    (d : Data) (f : find_parent_prefix t (to_tuple start) ≡ some p)
    (found : lookup p t.entries ≡ some e) (excluded : start.include ≡ 0)
    (g : get_next e (get_sub_id e (to_tuple start)) ≡ some k) (c : call e k ≡ ok (some d)) where
  next_found :
      (end : ObjectIdentifier)
      → get_next_value t (record { start = start; end = end })
        ≡ from_typecast e.value_type (replace_sub_id e (to_tuple start) k) d
  unfolding get_next_value get_nextvalue
  next_found end = rw (f, found, eq→== start.include 0 excluded, g, c) (found_first _ _)

  -- If the start stands under an entry whose next key has a value, and is not included, the answer
  -- is the same for any two ends of the range, also for ends at or before that name.
  pub get_next_ignores_end :
      (end end' : ObjectIdentifier)
      → get_next_value t (record { start = start; end = end })
        ≡ get_next_value t (record { start = start; end = end' })
  get_next_ignores_end end end' = next_found end ∙ sym (next_found end')
