-- ===== src/Mib/Meta/Complete.antt =====
-- The classes that MIBMeta of src/ax_interface/mib.py builds: their prefixes and their entries.
use sonic_snmpagent.Prelude.{
  ℕ, ◌≡◌, ◌⊎◌, inl, inr, refl, sym, ap, ◌∙◌, List, [], ◌∷◌, ◌++◌, length, length-append, All,
  Option, none, some, ok, >>=-eq-ok, true, Bool-cases,
}
use sonic_snmpagent.Encodings.Oid.{eq_tuple}
use sonic_snmpagent.Encodings.Oid.Names.{eq_tuple_sound, eq_tuple_refl}
use sonic_snmpagent.Order.{In}
use sonic_snmpagent.Util.Text.{is_valid_oid, oid2tuple}
use sonic_snmpagent.Mib.Entry.{MibEntry}
use sonic_snmpagent.Mib.Table.{lookup}
use sonic_snmpagent.Mib.Meta.{
  Member, entry, updater, other, MibClass, dict_update, set_prefix, gather, empty_class, own,
  inherit, new_class, table_of,
}

-- Every binding of the dict is an entry with the prefix of its key.
abbrev pub IsKeyed : List (List ℕ × MibEntry) → Type 0
IsKeyed d =
    (p : List ℕ) (e : MibEntry) → lookup p d ≡ some e → (e.prefix ≡ p) × (e.prefixlen ≡ length p)

-- A class with an entry for each prefix.
abbrev pub IsComplete : MibClass → Type 0
IsComplete c =
    IsKeyed c.sub_ids
    × ((p : List ℕ) → In p c.prefixes → (e : MibEntry) × (lookup p c.sub_ids ≡ some e))

module _ {ℓ} {A : Type ℓ} where
  -- In an updated dict the new bindings come first.
  lookup-dict_update :
      (p : List ℕ) (d new : List (List ℕ × A))
      → ((a : A) × (lookup p new ≡ some a) × (lookup p (dict_update d new) ≡ some a))
        ⊎ ((lookup p new ≡ none) × (lookup p (dict_update d new) ≡ lookup p d))
  unfolding lookup dict_update
  lookup-dict_update p d [] = inr (refl, refl)
  lookup-dict_update p d ((k, v) ∷ new) = elim (Bool-cases (eq_tuple k p)) [
    | inl e ↦ inl (v, rw e refl, rw e refl)
    | inr e ↦ rw e (lookup-dict_update p d new)
  ]

update-IsKeyed :
    (d new : List (List ℕ × MibEntry)) → IsKeyed d → IsKeyed new → IsKeyed (dict_update d new)
update-IsKeyed d new kd kn p e h = elim (lookup-dict_update p d new) [
  | inl (a, found, same) ↦ kn p e (found ∙ sym same ∙ h)
  | inr (missing, same) ↦ kd p e (sym same ∙ h)
]

update_keeps :
    (p : List ℕ) (d new : List (List ℕ × MibEntry))
    → ((e : MibEntry) × (lookup p d ≡ some e)) ⊎ ((e : MibEntry) × (lookup p new ≡ some e))
    → (e : MibEntry) × (lookup p (dict_update d new) ≡ some e)
update_keeps p d new h = elim (lookup-dict_update p d new) [
  | inl (a, found, same) ↦ (a, same)
  | inr (missing, same) ↦ elim h [ inl (e, there) ↦ (e, same ∙ there) | inr (e, there) ↦ cc ]
]

In-append : (p : List ℕ) (ps qs : List (List ℕ)) → In p (ps ++ qs) → In p ps ⊎ In p qs
In-append p [] qs h = inr h
In-append p (x ∷ ps) qs (inl e) = inl (inl e)
In-append p (x ∷ ps) qs (inr h) = elim (In-append p ps qs h) [ inl m ↦ inl (inr m) | inr m ↦ inr m ]

one-IsKeyed :
    (prefix : List ℕ) (e : MibEntry) → IsKeyed ((prefix ++ e.subtree, set_prefix prefix e) ∷ [])
unfolding lookup set_prefix
one-IsKeyed prefix e p found h = elim (Bool-cases (eq_tuple (prefix ++ e.subtree) p)) [
  | inl same ↦
      let whole : prefix ++ e.subtree ≡ p = eq_tuple_sound (prefix ++ e.subtree) p same in
      let taken : some (set_prefix prefix e) ≡ some found = rw same at h in
      let f : set_prefix prefix e ≡ found = cc in
      (
        ap (λ z. z.prefix) (sym f) ∙ whole,
        ap (λ z. z.prefixlen) (sym f) ∙ sym (length-append prefix e.subtree) ∙ ap length whole,
      )
  | inr differs ↦ cc (rw differs at h)
]

own_lookup :
    (prefix : List ℕ) (e : MibEntry) (p : List ℕ)
    → p ≡ prefix ++ e.subtree
    → lookup p ((prefix ++ e.subtree, set_prefix prefix e) ∷ []) ≡ some (set_prefix prefix e)
unfolding lookup
own_lookup prefix e p same = rw (same, eq_tuple_refl (prefix ++ e.subtree)) refl

gather-IsComplete :
    (prefix : List ℕ) (ms : List Member) (c : MibClass)
    → IsComplete c
    → IsComplete (gather prefix ms c)
unfolding gather
gather-IsComplete prefix [] c w = w
gather-IsComplete prefix (updater n ∷ ms) c w = gather-IsComplete prefix ms _ w
gather-IsComplete prefix (other ∷ ms) c w = gather-IsComplete prefix ms c w
gather-IsComplete prefix (entry e ∷ ms) c (keyed, present) = gather-IsComplete prefix ms _ (
  update-IsKeyed c.sub_ids _ keyed (one-IsKeyed prefix e),
  λ p m. update_keeps p c.sub_ids _ (elim (In-append p c.prefixes _ m) [
    | inl old ↦ inl (present p old)
    | inr (inl new) ↦ inr (set_prefix prefix e, own_lookup prefix e p new)
    | inr (inr none_left) ↦ absurd none_left
  ]),
)

inherit-IsComplete :
    (bases : List MibClass) (c : MibClass)
    → IsComplete c
    → All IsComplete bases
    → IsComplete (inherit c bases)
unfolding inherit
inherit-IsComplete [] c w ws = w
inherit-IsComplete (base ∷ bases) c (keyed, present) ((base_keyed, base_present), ws) =
    inherit-IsComplete bases _
      (
        update-IsKeyed c.sub_ids base.sub_ids keyed base_keyed,
        λ p m. update_keeps p c.sub_ids base.sub_ids (elim (In-append p base.prefixes _ m) [
          | inl new ↦ inr (base_present p new)
          | inr old ↦ inl (present p old)
        ]),
      )
      ws

empty-IsComplete : IsComplete empty_class
unfolding lookup
empty-IsComplete = (λ p e h. cc, λ p m. absurd m)

own-IsComplete :
    (prefix : Option (List ℕ)) (ms : List Member) (c : MibClass)
    → own prefix ms ≡ ok c
    → IsComplete c
unfolding own
own-IsComplete none ms c h = let same : empty_class ≡ c = cc in rw (← same) empty-IsComplete
own-IsComplete (some prefix) ms c h = elim (Bool-cases (is_valid_oid prefix true)) [
  | inl e ↦
      let (oid, _, h') = >>=-eq-ok (oid2tuple prefix true) _ (rw e at h) in
      let same : gather oid ms empty_class ≡ c = cc in
      rw (← same) (gather-IsComplete oid ms empty_class empty-IsComplete)
  | inr e ↦ cc (rw e at h)
]

-- A class built on complete classes is complete, and for a prefix of its table the table has an
-- entry, which carries that prefix and its length.
pub new_class-IsComplete :
    (prefix : Option (List ℕ)) (ms : List Member) (bases : List MibClass) (c : MibClass)
    (p : List ℕ)
    → All IsComplete bases
    → new_class prefix ms bases ≡ ok c
    → In p (table_of c).prefixes
    → IsComplete c
      × ((e : MibEntry) × (lookup p (table_of c).entries ≡ some e)
          × (e.prefix ≡ p)
          × (e.prefixlen ≡ length p))
unfolding new_class table_of
new_class-IsComplete prefix ms bases c p ws h there =
    let (mine, e, same) = >>=-eq-ok (own prefix ms) _ h in
    let built : inherit mine bases ≡ c = cc in
    let w : IsComplete c =
      rw (← built) (inherit-IsComplete bases mine (own-IsComplete prefix ms mine e) ws) in
    let (held, found) = w.1 p there in
    let (right, size) = w.0 p held found in (w, (held, found, right, size))
