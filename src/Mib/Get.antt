-- ===== src/Mib/Get.antt =====
-- `MIBTable.get` on every branch.
use sonic_snmpagent.Prelude.{
  ℕ, ◌≡◌, inl, inr, refl, ap, List, ◌++◌, length, Option, none, some, Result, ok, err, Exn, ◌>>=◌,
  Option-cases,
}
use sonic_snmpagent.Constants.{ValueType, no_such_object, no_such_instance}
use sonic_snmpagent.Encodings.Oid.{ObjectIdentifier, to_tuple}
use sonic_snmpagent.Encodings.Range.{SearchRange}
use sonic_snmpagent.Encodings.Value.{Data, ValueRepresentation, from_typecast}
use sonic_snmpagent.Order.{In, IsPrefixOf}
use sonic_snmpagent.Mib.Entry.{MibEntry, call}
use sonic_snmpagent.Mib.Table.{
  MibTable, find_parent_prefix, lookup, get, get_value, or_exception, exception_value,
}
use sonic_snmpagent.Mib.Find.{IsPrefixFree, find_parent_prefix_iff}
use sonic_snmpagent.Mib.Successor.Main.{cut_lem}

-- The answer to a GET of a name, from what its entry gives.
abbrev pub served : ValueType → List ℕ → ObjectIdentifier → Option Data → Result ValueRepresentation
served type_ name start none = ok (exception_value no_such_instance start)
served type_ name start (some d) = from_typecast type_ name d

-- A value that was found, or none, as the answer.
answer_found :
    (r : Result ValueRepresentation) (other : Option ValueRepresentation → ValueRepresentation)
    → ((vr : ValueRepresentation) → other (some vr) ≡ vr)
    → ((r >>= λ vr. ok (some vr)) >>= λ o. ok (other o)) ≡ r
answer_found (ok vr) other h = ap ok (h vr)
answer_found (err x) other h = refl

module _ (t : MibTable) (sr : SearchRange) (free : IsPrefixFree t.prefixes) where
  -- A name under no registered prefix is answered with noSuchObject. No registered prefix extends
  -- another.
  pub get_outside :
      ((p : List ℕ) → In p t.prefixes → IsPrefixOf p (to_tuple sr.start) → ⊥)
      → get t sr ≡ ok (exception_value no_such_object sr.start)
  unfolding get
  get_outside outside = elim (Option-cases (find_parent_prefix t (to_tuple sr.start))) [
    | inl f ↦ rw f
    | inr (p, f) ↦
        let (there, under) = (find_parent_prefix_iff t (to_tuple sr.start) p free).0 f in
        absurd (outside p there under)
  ]

  module _ (p sub : List ℕ) (e : MibEntry) (there : In p t.prefixes)
      (split : to_tuple sr.start ≡ p ++ sub) (found : lookup p t.entries ≡ some e)
      (len : e.prefixlen ≡ length p) where
    at_entry : find_parent_prefix t (to_tuple sr.start) ≡ some p
    at_entry = (find_parent_prefix_iff t (to_tuple sr.start) p free).1 (there, (sub, split))

    get_at_entry :
        ((d : Data) → call e sub ≡ ok (some d) → get t sr ≡ from_typecast e.value_type (p ++ sub) d)
        × (call e sub ≡ ok none → get t sr ≡ ok (exception_value no_such_instance sr.start))
        × ((x : Exn) → call e sub ≡ err x → get t sr ≡ err x)
    unfolding get get_value
    get_at_entry = (
      λ d c.
          rw (at_entry, found, cut_lem e p sub (to_tuple sr.start) len split, c, split)
            (answer_found _ (or_exception no_such_instance sr.start) (λ vr. refl)),
      λ c. rw (at_entry, found, cut_lem e p sub (to_tuple sr.start) len split, c) refl,
      λ x c. rw (at_entry, found, cut_lem e p sub (to_tuple sr.start) len split, c) refl,
    )

    -- Under a registered prefix the entry is called with the rest of the name: its value is the
    -- answer, under the name that was asked for; no value is noSuchInstance; and what the entry
    -- raises, `get` raises. No registered prefix extends another.
    pub get_under_prefix : get t sr ≡ (call e sub >>= served e.value_type (p ++ sub) sr.start)
    get_under_prefix =
        let (value, missing, raised) = get_at_entry in by_call (call e sub) value missing raised
      where
        by_call :
            (r : Result (Option Data))
            → ((d : Data) → r ≡ ok (some d) → get t sr ≡ from_typecast e.value_type (p ++ sub) d)
            → (r ≡ ok none → get t sr ≡ ok (exception_value no_such_instance sr.start))
            → ((x : Exn) → r ≡ err x → get t sr ≡ err x)
            → get t sr ≡ (r >>= served e.value_type (p ++ sub) sr.start)
        by_call (ok none) value missing raised = missing refl
        by_call (ok (some d)) value missing raised = value d refl
        by_call (err x) value missing raised = raised x refl
