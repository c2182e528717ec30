-- ===== src/Mibs/Rows/Table.antt =====
-- What an updater establishes with its rows, and the entry of a MIB over them.
use sonic_snmpagent.Prelude.{
  ℕ, ◌≡◌, ◌⊎◌, inl, inr, refl, ap, List, [], ◌∷◌, ◌++◌, Option, none, some, Result, ok, Bool-cases,
  false,
}
use sonic_snmpagent.Constants.{ValueType}
use sonic_snmpagent.Dict.{find, find-set, set, ◌≟◌, list_eq}
use sonic_snmpagent.Encodings.Value.{Data}
use sonic_snmpagent.Order.{◌≺◌, In}
use sonic_snmpagent.Order.Sorting.{IsSorted, remaining, In-sorted}
use sonic_snmpagent.Mib.Entry.{
  subtree, get_next, next_of, first, first_of, call, call_handler, caught,
}
use sonic_snmpagent.Mib.Successor.{IsLawful}
use sonic_snmpagent.Mibs.Rows.{Rows, no_rows, add_row, sort_rows, next_sub_id}
use sonic_snmpagent.Mibs.Rows.Successor.{next_sub_id_lem, next_sub_id-some, next_sub_id-none, head?}

-- Every sub-identifier of the list has an acceptable value in the dict, and none is empty.
pub record IsTable {ℓ} {V : Type ℓ} (Good : V → Type 0) (r : Rows V) : Type ℓ where
  pub valued : (k : List ℕ) → In k r.sub_ids → (v : V) × (find k r.value_map ≡ some v) × Good v
  pub filled : (k : List ℕ) → In k r.sub_ids → [] ≺ k

pub In-append_last : (a k : List ℕ) (xs : List (List ℕ)) → In a (xs ++ (k ∷ [])) → In a xs ⊎ (a ≡ k)
In-append_last a k [] (inl e) = inr e
In-append_last a k [] (inr none_left) = absurd none_left
In-append_last a k (x ∷ xs) (inl e) = inl (inl e)
In-append_last a k (x ∷ xs) (inr i) = elim (In-append_last a k xs i) [
  | inl old ↦ inl (inr old)
  | inr new ↦ inr new
]

pub In-append_old : (a k : List ℕ) (xs : List (List ℕ)) → In a xs → In a (xs ++ (k ∷ []))
In-append_old a k [] i = absurd i
In-append_old a k (x ∷ xs) (inl e) = inl e
In-append_old a k (x ∷ xs) (inr i) = inr (In-append_old a k xs i)

pub In-append_new : (a k : List ℕ) (xs : List (List ℕ)) → a ≡ k → In a (xs ++ (k ∷ []))
In-append_new a k [] e = inl e
In-append_new a k (x ∷ xs) e = inr (In-append_new a k xs e)

module _ {ℓ} {V : Type ℓ} (Good : V → Type 0) where
  pub no_rows-IsTable : IsTable Good (no_rows {V = V})
  unfolding no_rows
  no_rows-IsTable = record { valued = λ k i. absurd i; filled = λ k i. absurd i }

  pub add_row-IsTable :
      (k : List ℕ) (v : V) (r : Rows V)
      → [] ≺ k
      → Good v
      → IsTable Good r
      → IsTable Good (add_row k v r)
  unfolding add_row
  add_row-IsTable k v r full good t = record {
    valued = λ j i. valued j (In-append_last j k r.sub_ids i);
    filled = λ j i. filled j (In-append_last j k r.sub_ids i);
  }
    where
      value : List ℕ → Type ℓ
      value j = (w : V) × (find j (set k v r.value_map) ≡ some w) × Good w

      old_value : {j : List ℕ} → (j ≟ k) ≡ false → In j r.sub_ids ⊎ (j ≡ k) → value j
      old_value {j} other (inl old) =
          let (w, found, fine) = t.valued j old in
          (w, rw (find-set j k v r.value_map, other) found, fine)
      old_value {j} other (inr new) = absurd (cc ((list_eq.test_iff j k).1 new))

      valued : (j : List ℕ) → In j r.sub_ids ⊎ (j ≡ k) → value j
      valued j place = elim (Bool-cases (j ≟ k)) [
        | inl same ↦ (v, rw (find-set j k v r.value_map, same) refl, good)
        | inr other ↦ old_value other place
      ]

      filled : (j : List ℕ) → In j r.sub_ids ⊎ (j ≡ k) → [] ≺ j
      filled j (inl old) = t.filled j old
      filled j (inr new) = rw new full

  pub sort_rows-IsTable : (r : Rows V) → IsTable Good r → IsTable Good (sort_rows r)
  unfolding sort_rows
  sort_rows-IsTable r t = record {
    valued = λ k i. t.valued k ((In-sorted k r.sub_ids).0 i);
    filled = λ k i. t.filled k ((In-sorted k r.sub_ids).0 i);
  }

caught_next :
    (sub_ids : List (List ℕ)) (s : List ℕ) (o : Option (List ℕ))
    → caught (next_sub_id sub_ids s) ≡ o
    → next_sub_id sub_ids s ≡ ok o
unfolding caught
caught_next sub_ids s o h =
    let h' : caught (ok (head? (remaining sub_ids s))) ≡ o = rw (next_sub_id_lem sub_ids s) at h in
    rw (next_sub_id_lem sub_ids s) (ap (λ x. ok x) h')

-- The entry of a sorted table is lawful over the sub-identifiers of the list: the callable finds a
-- value for each of them.
pub subtree-IsLawful :
    (type_ : ValueType) (tree prefix : List ℕ) (prefixlen : ℕ) (sub_ids : List (List ℕ))
    (callable : List ℕ → Result (Option Data))
    → IsSorted sub_ids
    → ((k : List ℕ) → In k sub_ids → [] ≺ k)
    → ((k : List ℕ) → In k sub_ids → (d : Data) × (callable k ≡ ok (some d)))
    → IsLawful
        (record {
          value_type = type_;
          subtree = tree;
          prefix = prefix;
          prefixlen = prefixlen;
          handler = subtree (next_sub_id sub_ids) callable;
        })
        (λ k. In k sub_ids)
unfolding get_next next_of first first_of call call_handler
subtree-IsLawful type_ tree prefix prefixlen sub_ids callable order filled valued = record {
  next_some = λ s k h. next_sub_id-some sub_ids order s k (caught_next sub_ids s (some k) h);
  next_none = λ s m h i. next_sub_id-none sub_ids order s m (caught_next sub_ids s none h) i;
  first_ok = (caught (next_sub_id sub_ids []), refl);
  first_some = λ k h.
      let (there, above, least) =
        next_sub_id-some sub_ids order [] k (caught_next sub_ids [] (some k) cc) in
      (there, λ m i. least m i (filled m i));
  first_none = λ m h i.
      cc (next_sub_id-none sub_ids order [] m (caught_next sub_ids [] none cc) i, filled m i);
  has_value = λ k i. let (d, e) = valued k i in (d, rw e refl);
}
