-- ===== src/Runs/Table.antt =====
-- Runs of the MIB table: two scalars.
use sonic_snmpagent.Prelude.{
  ℕ, ◌≡◌, ◌↔◌, inl, inr, refl, sym, ◌∙◌, arith, List, [], ◌∷◌, ◌++◌, length, ok, ◌>>=◌, none, some,
  pos,
}
use sonic_snmpagent.Constants.{integer, end_of_mib_view}
use sonic_snmpagent.Encodings.Oid.{null_oid, to_tuple, prefix, eq_tuple}
use sonic_snmpagent.Encodings.Range.{SearchRange}
use sonic_snmpagent.Encodings.Value.{int}
use sonic_snmpagent.Order.{
  ◌≺◌, ◌≼◌, In, IsPrefixOf, lt_tuple, sorted, insert_sorted, bisect_right, last?,
}
use sonic_snmpagent.Mib.Entry.{
  MibEntry, scalar, subtree, call, call_handler, get_next, next_of, first, first_of, caught,
}
use sonic_snmpagent.Mib.Table.{
  MibTable, lookup, get, get_next_value, find_parent_prefix, parent_of, exception_value,
}
use sonic_snmpagent.Mib.Find.{IsPrefixFree, find_parent_prefix_iff}
use sonic_snmpagent.Mib.Successor.{IsLawful, Holds, Answer}
use sonic_snmpagent.Mib.Successor.Main.{get_next_value-Answer}
use sonic_snmpagent.Mib.Limits.{find_parent_prefix_hidden, get_next_null_end, get_next_ignores_end}
use sonic_snmpagent.Mib.Get.{get_under_prefix, served}

abbrev pub entry_of : List ℕ → ℕ → MibEntry
entry_of prefix n = record {
  value_type = integer;
  subtree = [];
  prefix = prefix;
  prefixlen = length prefix;
  handler = scalar (ok (some (int (pos n))));
}

abbrev pub low : List ℕ
low = 1 ∷ 5 ∷ []

abbrev pub high : List ℕ
high = 1 ∷ 7 ∷ []

abbrev pub table : MibTable
table = record {
  entries = (high, entry_of high 70) ∷ (low, entry_of low 50) ∷ [];
  prefixes = high ∷ low ∷ [];
}

-- A scalar instantiates the empty sub-identifier alone.
abbrev pub View : List ℕ → List ℕ → Type 0
View p k = k ≡ []

pub least : (m k : List ℕ) → k ≡ [] → k ≼ m
unfolding lt_tuple
least [] k h = rw h refl
least (x ∷ m) k h = rw h refl

pub scalar-IsLawful : (p : List ℕ) (n : ℕ) → IsLawful (entry_of p n) (View p)
unfolding get_next next_of first first_of call call_handler
scalar-IsLawful p n = record {
  next_some = λ s k h. cc;
  next_none = λ s m h key. least s m key;
  first_ok = (some [], refl);
  first_some = λ k h. (cc, λ m key. least m k cc);
  first_none = λ m h key. cc;
  has_value = λ k key. (int (pos n), refl);
}

abbrev pub prefixes : List (List ℕ)
prefixes = high ∷ low ∷ []

pub free : IsPrefixFree prefixes
free p q (inl a) (inl b) r = a ∙ sym b
free p q (inl a) (inr (inl b)) (rest, e) = absurd (grind arith)
free p q (inr (inl a)) (inl b) (rest, e) = absurd (grind arith)
free p q (inr (inl a)) (inr (inl b)) r = a ∙ sym b
free p q (inl a) (inr (inr none_left)) r = absurd none_left
free p q (inr (inl a)) (inr (inr none_left)) r = absurd none_left
free p q (inr (inr none_left)) there r = absurd none_left

pub holds : (p : List ℕ) → In p prefixes → Holds table p (View p)
unfolding lookup
holds p (inl e) = rw e (record {
  entry = entry_of high 70;
  found = refl;
  prefixlen = refl;
  lawful = scalar-IsLawful high 70;
})
holds p (inr (inl e)) = rw e (record {
  entry = entry_of low 50;
  found = refl;
  prefixlen = refl;
  lawful = scalar-IsLawful low 50;
})
holds p (inr (inr none_left)) = absurd none_left

-- The range from 1.5 to 1.9.
abbrev pub range_of : List ℕ → SearchRange
range_of start = record {
  start = record { n_subid = length start; prefix_ = 0; include = 0; reserved = 0; subids = start };
  end = record { n_subid = 2; prefix_ = 0; include = 0; reserved = 0; subids = 1 ∷ 9 ∷ [] };
}

get_next_value-Answer_example :
    Answer table View prefixes
      (λ m. to_tuple (range_of low).start ≺ m)
      (range_of low).start
      (to_tuple (range_of low).end)
      (get_next_value table (range_of low))
get_next_value-Answer_example =
    get_next_value-Answer table View (record { free = free; holds = holds }) (range_of low) refl

find_parent_prefix_iff_example :
    (find_parent_prefix table (1 ∷ 5 ∷ 0 ∷ []) ≡ some low)
    ↔ (In low prefixes × IsPrefixOf low (1 ∷ 5 ∷ 0 ∷ []))
find_parent_prefix_iff_example = find_parent_prefix_iff table (1 ∷ 5 ∷ 0 ∷ []) low free

-- A GET of 1.5.0 is answered with the value of the scalar 1.5.
get_under_prefix_example : get table (range_of (1 ∷ 5 ∷ 0 ∷ [])) ≡ (
    call (entry_of low 50) (0 ∷ [])
    >>= served integer (low ++ (0 ∷ [])) (range_of (1 ∷ 5 ∷ 0 ∷ [])).start)
unfolding to_tuple prefix lookup
get_under_prefix_example =
    get_under_prefix table (range_of (1 ∷ 5 ∷ 0 ∷ [])) free low (0 ∷ []) (entry_of low 50)
      (inr (inl refl)) refl refl refl

-- With 1 and 1.5 registered, 1.6 stands under 1, but 1.5 is the prefix that is tried.
abbrev nested : MibTable
nested = record {
  entries = (1 ∷ [], entry_of (1 ∷ []) 10) ∷ (low, entry_of low 50) ∷ [];
  prefixes = (1 ∷ []) ∷ low ∷ [];
}

nested_great : (r : List ℕ) → In r ((1 ∷ []) ∷ low ∷ []) → r ≼ 1 ∷ 6 ∷ [] → r ≼ low
unfolding lt_tuple
nested_great r (inl e) l = rw e refl
nested_great r (inr (inl e)) l = rw e refl
nested_great r (inr (inr none_left)) l = absurd none_left

not_under_low : IsPrefixOf low (1 ∷ 6 ∷ []) → ⊥
not_under_low (rest, e) = grind arith

find_parent_prefix_hidden_example : find_parent_prefix nested (1 ∷ 6 ∷ []) ≡ none
unfolding lt_tuple
find_parent_prefix_hidden_example =
    find_parent_prefix_hidden nested (1 ∷ 6 ∷ []) low (inr (inl refl)) refl nested_great
      not_under_low

-- A search from 1 without an end.
abbrev open_range : SearchRange
open_range = record {
  start = record { n_subid = 1; prefix_ = 0; include = 0; reserved = 0; subids = 1 ∷ [] };
  end = null_oid;
}

get_next_null_end_example :
    get_next_value table open_range ≡ ok (exception_value end_of_mib_view open_range.start)
unfolding find_parent_prefix parent_of sorted insert_sorted bisect_right last? lt_tuple to_tuple
    prefix
get_next_null_end_example = get_next_null_end table open_range refl refl

-- A subtree that instantiates 1.5.3 behind 1.5.
abbrev rows : MibEntry
rows = record {
  value_type = integer;
  subtree = [];
  prefix = low;
  prefixlen = 2;
  handler = subtree (λ s. ok (some (3 ∷ []))) (λ s. ok (some (int (pos 30))));
}

abbrev row_table : MibTable
row_table = record { entries = (low, rows) ∷ []; prefixes = low ∷ [] }

get_next_ignores_end_example :
    get_next_value row_table (record { start = (range_of low).start; end = null_oid })
    ≡ get_next_value row_table (record { start = (range_of low).start; end = (range_of high).end })
unfolding find_parent_prefix parent_of sorted insert_sorted bisect_right last? lt_tuple to_tuple
    prefix eq_tuple lookup get_next next_of caught call call_handler
get_next_ignores_end_example =
    get_next_ignores_end row_table (range_of low).start low rows (3 ∷ []) (int (pos 30)) refl refl
      refl refl refl null_oid (range_of high).end
