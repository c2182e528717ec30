-- ===== src/Mibs/IfMib/Fuel.antt =====
-- The depth of the recursion over the ports of a LAG.
use sonic_snmpagent.Prelude.{
  ℕ, suc, ◌+◌, ◌≡◌, inl, inr, refl, List, [], ◌∷◌, All, Option, none, some, Result, ok, err,
  out_of_fuel, ◌≢◌, ◌>>=◌, Bool-cases,
}
use sonic_snmpagent.Dict.{find, item, item-ok, contains, nat_eq, list_eq, option_eq}
use sonic_snmpagent.Strings.{Text}
use sonic_snmpagent.Mibs.PortUtil.{PortUtil}
use sonic_snmpagent.Mibs.IfMib.Ended.{IsEnded, IsEnded-ne, table-IsEnded, counter_by-IsEnded}
use sonic_snmpagent.Mibs.IfMib.{
  InterfaceMibUpdater, add_member, sum_members, lag_of, counter_by, get_counter,
}

module _ (port_util : PortUtil) (u : InterfaceMibUpdater) (bits : ℕ) (table_name : Text) where
  -- What is no LAG has its counter without a further call.
  port_counter :
      (fuel : ℕ) (oid : Option ℕ)
      → lag_of u oid ≡ none
      → get_counter port_util u bits table_name (suc fuel) oid
        ≡ get_counter port_util u bits table_name 1 oid
  unfolding get_counter counter_by
  port_counter fuel oid h = rw h refl

  after_same :
      (f g : Text → Result (Option ℕ)) (members : List Text) (total : ℕ) (r : Result (Option ℕ))
      → ((n : ℕ) → sum_members bits f members (total + n) ≡ sum_members bits g members (total + n))
      → (r >>= λ n. add_member total n (sum_members bits f members))
        ≡ (r >>= λ n. add_member total n (sum_members bits g members))
  unfolding add_member
  after_same f g members total (Result.err x) h = refl
  after_same f g members total (ok none) h = refl
  after_same f g members total (ok (some n)) h = h n

  bind_same :
      (r : Result (List Text)) (f g : List Text → Result (Option ℕ))
      → ((members : List Text) → r ≡ ok members → f members ≡ g members)
      → (r >>= f) ≡ (r >>= g)
  bind_same (Result.err x) f g h = refl
  bind_same (ok members) f g h = h members refl

  sum_members_same :
      (f g : Text → Result (Option ℕ)) (members : List Text) (total : ℕ)
      → All (λ m. f m ≡ g m) members
      → sum_members bits f members total ≡ sum_members bits g members total
  unfolding sum_members
  sum_members_same f g [] total h = refl
  sum_members_same f g (m ∷ members) total (e, h) =
      rw e (after_same f g members total (g m) (λ n. sum_members_same f g members (total + n) h))

  All-members :
      (fuel : ℕ) (members : List Text)
      → All (λ m. lag_of u (port_util.get_index_from_str m) ≡ none) members
      → All
          (λ m.
            get_counter port_util u bits table_name (suc fuel) (port_util.get_index_from_str m)
            ≡ get_counter port_util u bits table_name 1 (port_util.get_index_from_str m))
          members
  All-members fuel [] h = tt
  All-members fuel (m ∷ members) (e, h) =
      (port_counter fuel (port_util.get_index_from_str m) e, All-members fuel members h)

  counter_by_same :
      (fuel : ℕ) (oid : Option ℕ) (lag : Option Text)
      → ((lag_name : Text) (members : List Text)
          → find lag_name u.lag_name_if_name_map ≡ some members
          → All (λ m. lag_of u (port_util.get_index_from_str m) ≡ none) members)
      → counter_by u bits table_name
          (λ name.
            get_counter port_util u bits table_name (suc fuel) (port_util.get_index_from_str name))
          oid
          lag
        ≡ counter_by u bits table_name
            (λ name. get_counter port_util u bits table_name 1 (port_util.get_index_from_str name))
            oid
            lag
  unfolding counter_by
  counter_by_same fuel oid none flat = refl
  counter_by_same fuel oid (some lag_name) flat =
      bind_same (item lag_name u.lag_name_if_name_map) _ _ (λ members e.
        sum_members_same _ _ members 0 (
          All-members fuel members
            (flat lag_name members (item-ok lag_name members u.lag_name_if_name_map e))))

  -- The ports of a LAG are no LAGs, and so their counters come from the table.
  flat-IsEnded :
      (oid : Option ℕ)
      → lag_of u oid ≡ none
      → IsEnded (get_counter port_util u bits table_name 1 oid)
  unfolding get_counter
  flat-IsEnded oid h = elim (Bool-cases (contains oid u.mgmt_oid_name_map)) [
    | inl e ↦ rw e tt
    | inr e ↦
        rw (e, h)
          (table-IsEnded u bits table_name
            (λ name. get_counter port_util u bits table_name 0 (port_util.get_index_from_str name))
            oid)
  ]

  members-IsEnded :
      (members : List Text)
      → All (λ m. lag_of u (port_util.get_index_from_str m) ≡ none) members
      → All
          (λ m.
            IsEnded (get_counter port_util u bits table_name 1 (port_util.get_index_from_str m)))
          members
  members-IsEnded [] h = tt
  members-IsEnded (m ∷ members) (e, h) =
      (flat-IsEnded (port_util.get_index_from_str m) e, members-IsEnded members h)

  two-IsEnded :
      (oid : Option ℕ)
      → ((lag_name : Text) (members : List Text)
          → find lag_name u.lag_name_if_name_map ≡ some members
          → All (λ m. lag_of u (port_util.get_index_from_str m) ≡ none) members)
      → IsEnded (get_counter port_util u bits table_name 2 oid)
  unfolding get_counter
  two-IsEnded oid flat = elim (Bool-cases (contains oid u.mgmt_oid_name_map)) [
    | inl e ↦ rw e tt
    | inr e ↦ rw e (
        counter_by-IsEnded u bits table_name
          (λ name. get_counter port_util u bits table_name 1 (port_util.get_index_from_str name))
          oid (lag_of u oid)
          (λ lag_name members h. members-IsEnded members (flat lag_name members h)))
  ]

  more_calls :
      (fuel : ℕ) (oid : Option ℕ)
      → ((lag_name : Text) (members : List Text)
          → find lag_name u.lag_name_if_name_map ≡ some members
          → All (λ m. lag_of u (port_util.get_index_from_str m) ≡ none) members)
      → get_counter port_util u bits table_name (suc (suc fuel)) oid
        ≡ get_counter port_util u bits table_name 2 oid
  unfolding get_counter
  more_calls fuel oid flat = elim (Bool-cases (contains oid u.mgmt_oid_name_map)) [
    | inl e ↦ rw e refl
    | inr e ↦ rw e (counter_by_same fuel oid (lag_of u oid) flat)
  ]

  -- The recursion of _get_counter over the ports of a LAG ends after two calls: where no port of a
  -- LAG is a LAG, it returns or raises with any number of calls from two on, never for want of
  -- calls, and the result is the same for all these numbers.
  pub get_counter_fuel :
      (fuel : ℕ) (oid : Option ℕ)
      → ((lag_name : Text) (members : List Text)
          → find lag_name u.lag_name_if_name_map ≡ some members
          → All (λ m. lag_of u (port_util.get_index_from_str m) ≡ none) members)
      → (get_counter port_util u bits table_name (suc (suc fuel)) oid
          ≡ get_counter port_util u bits table_name 2 oid)
        × (get_counter port_util u bits table_name (suc (suc fuel)) oid ≢ err out_of_fuel)
  get_counter_fuel fuel oid flat =
      let same = more_calls fuel oid flat in
      (
        same,
        rw same (IsEnded-ne (get_counter port_util u bits table_name 2 oid) (two-IsEnded oid flat)),
      )
