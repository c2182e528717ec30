-- ===== src/Mib/Successor/Main.antt =====
-- `MIBTable.get_next` against the successor relation.
use sonic_snmpagent.Prelude.{
  ℕ, ◌≡◌, inl, inr, refl, ap, ◌∙◌, List, ◌++◌, length, eq→==, none, some, Result, ok, err, ◌>>=◌,
  Option-cases, take-append, drop-append,
}
use sonic_snmpagent.Encodings.Oid.{to_tuple}
use sonic_snmpagent.Encodings.Range.{SearchRange}
use sonic_snmpagent.Encodings.Value.{Data, ValueRepresentation, from_typecast}
use sonic_snmpagent.Order.{◌≺◌, sorted, In}
use sonic_snmpagent.Order.Lex.{lt_tuple-append}
use sonic_snmpagent.Order.Sorting.{
  remaining, sorted-IsSorted, In-sorted, remaining_above, remaining_complete, remaining-IsSorted,
  remaining-In,
}
use sonic_snmpagent.Mib.Entry.{MibEntry, get_next, call, get_sub_id, replace_sub_id}
use sonic_snmpagent.Mib.Table.{
  MibTable, find_parent_prefix, get_next_value, walk, get_nextvalue, or_walk,
}
use sonic_snmpagent.Mib.Find.{find_parent_prefix_iff}
use sonic_snmpagent.Mib.Successor.{Holds, IsView, IsUnder, Answer, successor, exhausted}
use sonic_snmpagent.Mib.Successor.Walk.{walk-Answer}
use sonic_snmpagent.Mib.Successor.Under.{above_if_none, above_if_last, least_under}

-- A value that the first part finds is the answer.
pub found_first :
    (r : Result ValueRepresentation) (later : Result ValueRepresentation)
    → ((r >>= λ vr. ok (some vr)) >>= λ o. or_walk o later) ≡ r
unfolding or_walk
found_first (ok vr) later = refl
found_first (err x) later = refl

module _ (e : MibEntry) (p sub s : List ℕ) (len : e.prefixlen ≡ length p)
    (split : s ≡ p ++ sub) where
  pub cut_lem : get_sub_id e s ≡ sub
  unfolding get_sub_id
  cut_lem = rw (len, split) (drop-append (length p) p sub refl)

  join_lem : (k : List ℕ) → replace_sub_id e s k ≡ p ++ k
  unfolding replace_sub_id
  join_lem k = rw (len, split) (ap (λ z. z ++ k) (take-append (length p) p sub refl))

module _ (t : MibTable) (sr : SearchRange) where
  abbrev s : List ℕ
  s = to_tuple sr.start

  abbrev walked : Result ValueRepresentation
  walked = walk t sr.start (to_tuple sr.end) (remaining (sorted t.prefixes) s)

  start_outside : find_parent_prefix t s ≡ none → get_next_value t sr ≡ walked
  unfolding get_next_value
  start_outside f = rw f

  module _ (p : List ℕ) {Key : List ℕ → Type 0} (h : Holds t p Key)
      (found : find_parent_prefix t s ≡ some p) (excluded : sr.start.include ≡ 0) where
    start_last : get_next h.entry (get_sub_id h.entry s) ≡ none → get_next_value t sr ≡ walked
    unfolding get_next_value get_nextvalue
    start_last g = rw (found, h.found, eq→== sr.start.include 0 excluded, g)

    start_next :
        (k : List ℕ) (d : Data)
        → get_next h.entry (get_sub_id h.entry s) ≡ some k
        → call h.entry k ≡ ok (some d)
        → get_next_value t sr ≡ from_typecast h.entry.value_type (replace_sub_id h.entry s k) d
    unfolding get_next_value get_nextvalue
    start_next k d g c =
        rw (found, h.found, eq→== sr.start.include 0 excluded, g, c) (found_first _ _)

module _ (t : MibTable) (View : List ℕ → List ℕ → Type 0) (v : IsView t View)
    (sr : SearchRange) where
  abbrev start_key : List ℕ
  start_key = to_tuple sr.start

  abbrev IsAnswer : Result ValueRepresentation → Type 0
  IsAnswer = Answer t View t.prefixes (λ m. start_key ≺ m) sr.start (to_tuple sr.end)

  among :
      (m : List ℕ) (u : IsUnder View t.prefixes m)
      → start_key ≺ u.prefix
      → IsUnder View (remaining (sorted t.prefixes) start_key) m
  among m u l = record {
    prefix = u.prefix;
    sub_id = u.sub_id;
    there =
        remaining_complete (sorted t.prefixes) start_key u.prefix
          ((In-sorted u.prefix t.prefixes).1 u.there) l;
    key = u.key;
    joined = u.joined;
  }

  -- If only prefixes above the start matter, the loop over them answers for all.
  by_walk :
      ((m : List ℕ) (u : IsUnder View t.prefixes m) → start_key ≺ m → start_key ≺ u.prefix)
      → IsAnswer (walked t sr)
  by_walk skip =
      elim (walk-Answer t View v sr.start start_key (to_tuple sr.end)
        (remaining (sorted t.prefixes) start_key)
        (remaining-IsSorted (sorted t.prefixes) start_key (sorted-IsSorted t.prefixes))
        (remaining_above (sorted t.prefixes) start_key (sorted-IsSorted t.prefixes))
        (λ q m. (In-sorted q t.prefixes).0 (remaining-In (sorted t.prefixes) start_key q m))) [
          | successor name type_ d sv ab low e ↦
              successor name type_ d sv ab (λ m u am. low m (among m u (skip m u am)) am) e
          | exhausted low e ↦ exhausted (λ m u am. low m (among m u (skip m u am)) am) e
        ]

  -- The successor under the start's own entry is the answer.
  by_entry :
      (p sub k : List ℕ)
      → In p t.prefixes
      → (h : Holds t p (View p)) → start_key ≡ p ++ sub
      → find_parent_prefix t start_key ≡ some p
      → sr.start.include ≡ 0
      → get_next h.entry sub ≡ some k
      → IsAnswer (get_next_value t sr)
  by_entry p sub k there h e f excluded g =
      let (key, l, _) = h.lawful.next_some sub k g in
      let (d, c) = h.lawful.has_value k key in
      let cut = cut_lem h.entry p sub start_key h.prefixlen e in
      successor (p ++ k) h.entry.value_type d
        (record {
          prefix = p;
          sub_id = k;
          entry = h.entry;
          there = there;
          key = key;
          joined = refl;
          found = h.found;
          typed = refl;
          value = c;
        })
        (rw (e, lt_tuple-append p sub k) l)
        (λ m u am. least_under t View v start_key p sub f e h k there g m u am)
        (start_next t sr p h f excluded k d (ap (get_next h.entry) cut ∙ g) c
          ∙ ap (λ z. from_typecast h.entry.value_type z d)
              (join_lem h.entry p sub start_key h.prefixlen e k))

  -- A search that does not include its start is answered with the lexicographic successor of the
  -- start among all names that the handlers instantiate, with its type and value; or with
  -- endOfMibView, and then no such name above the start lies below the end of the range. The table
  -- has prefixes of which none extends another, and lawful handlers.
  pub get_next_value-Answer : sr.start.include ≡ 0 → IsAnswer (get_next_value t sr)
  get_next_value-Answer excluded = elim (Option-cases (find_parent_prefix t start_key)) [
    | inl f ↦ rw (start_outside t sr f) (by_walk (above_if_none t View v start_key f))
    | inr (p, f) ↦
        let (there, (sub, e)) = (find_parent_prefix_iff t start_key p v.free).0 f in
        let h = v.holds p there in
        let cut = cut_lem h.entry p sub start_key h.prefixlen e in
        elim (Option-cases (get_next h.entry sub)) [
          | inl g ↦
              rw (start_last t sr p h f excluded (ap (get_next h.entry) cut ∙ g))
                (by_walk (above_if_last t View v start_key p sub f e h g))
          | inr (k, g) ↦ by_entry p sub k there h e f excluded g
        ]
  ]
