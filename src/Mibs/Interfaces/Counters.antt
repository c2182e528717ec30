-- ===== src/Mibs/Interfaces/Counters.antt =====
-- src/sonic_ax_impl/mibs/ietf/rfc1213.py: the counters of an interface.
use sonic_snmpagent.Prelude.{
  ℕ, ◌+◌, ◌%◌, ◌^◌, ◌<◌, inl, inr, arith, List, [], ◌∷◌, Option, none, some, Result, ok, err,
  type_error, ◌>>=◌, Bool, false, ◌||◌, ◌==◌, if◌then◌else◌, Bool-cases,
}
use sonic_snmpagent.Dict.{◌≟◌, find, item, contains, nat_eq, list_eq, option_eq}
use sonic_snmpagent.Strings.{Text}
use sonic_snmpagent.Mibs.PortUtil.{PortUtil}
use sonic_snmpagent.Mibs.Interfaces.{InterfacesUpdater, Counters, rif_drops_aggr_map, get_or_zero}

-- `sub_id in self.if_range`
unfoldable pub in_range : List ℕ → List (List ℕ) → Bool
in_range sub_id [] = false
in_range sub_id (x ∷ xs) = sub_id ≟ x || in_range sub_id xs

unfoldable pub head_of : List ℕ → Option ℕ
head_of [] = none
head_of (x ∷ xs) = some x

-- The tuples of the range have one element.
unfoldable pub get_oid : InterfacesUpdater → List ℕ → Option ℕ
unfolding in_range head_of
get_oid u sub_id = if in_range sub_id u.if_range then head_of sub_id else none

-- `oid = self.get_oid(sub_id)` and `if not oid: return`
unfoldable pub with_oid {ℓ} : {A : Type ℓ} → Option ℕ → (ℕ → Result (Option A)) → Result (Option A)
with_oid none next = ok none
with_oid (some oid) next = if oid == 0 then ok none else next oid

-- `counter & 0x00000000ffffffff`
unfoldable pub truncate : ℕ → ℕ
truncate n = n % 2 ^ 32

unfoldable pub truncated : Option ℕ → Option ℕ
unfolding truncate
truncated none = none
truncated (some n) = some (truncate n)

-- A missing counter is a KeyError, which is caught.
unfoldable pub counter_in : Text → Option Counters → Option ℕ
unfolding truncated
counter_in table_name none = none
counter_in table_name (some counters) = truncated (find table_name counters)

-- `_get_counter`
unfoldable pub get_counter_at : InterfacesUpdater → Option ℕ → Text → Option ℕ
unfolding counter_in
get_counter_at u oid table_name = counter_in table_name (find oid u.if_counters)

-- `counter_value += None` raises TypeError.
unfoldable pub add_counter : Option ℕ → ℕ → Result ℕ
add_counter none total = err type_error
add_counter (some n) total = ok (total + n)

-- What the router interface of the LAG has dropped.
unfoldable pub rif_drops : InterfacesUpdater → Text → Text → Result ℕ
unfolding get_or_zero
rif_drops u sai_lag_rif_id table_name = elim (find table_name rif_drops_aggr_map) [
  | none ↦ ok 0
  | some rif_table_name ↦ (do
    counters ← item sai_lag_rif_id u.rif_counters
    ok (get_or_zero rif_table_name counters))
]

unfoldable pub lag_rif_drops : InterfacesUpdater → Option Text → Text → Result ℕ
unfolding rif_drops
lag_rif_drops u none table_name = ok 0
lag_rif_drops u (some sai_lag_rif_id) table_name =
    if contains sai_lag_rif_id u.rif_port_map then rif_drops u sai_lag_rif_id table_name else ok 0

module _ (port_util : PortUtil) where
  unfoldable pub sum_members : InterfacesUpdater → Text → List Text → ℕ → Result ℕ
  unfolding get_counter_at add_counter
  sum_members u table_name [] total = ok total
  sum_members u table_name (lag_member ∷ members) total = do
    total' ←
        add_counter (get_counter_at u (port_util.get_index_from_str lag_member) table_name) total
    sum_members u table_name members total'

  unfoldable pub lag_counter : InterfacesUpdater → Text → Text → Result (Option ℕ)
  unfolding sum_members lag_rif_drops truncate
  lag_counter u lag_name table_name = do
    members ← item lag_name u.lag_name_if_name_map
    total ← sum_members u table_name members 0
    sai_lag_id ← item lag_name u.lag_sai_map
    drops ← lag_rif_drops u (find sai_lag_id u.port_rif_map) table_name
    ok (some (truncate (total + drops)))

  -- A port that is neither for management nor a LAG has its own counter.
  unfoldable pub counter_by : InterfacesUpdater → Text → ℕ → Option Text → Result (Option ℕ)
  unfolding lag_counter get_counter_at
  counter_by u table_name oid none = ok (get_counter_at u (some oid) table_name)
  counter_by u table_name oid (some lag_name) = lag_counter u lag_name table_name

  unfoldable pub get_counter : InterfacesUpdater → Text → List ℕ → Result (Option ℕ)
  unfolding get_oid with_oid counter_by
  get_counter u table_name sub_id = with_oid (get_oid u sub_id) (λ oid.
      if contains (some oid) u.mgmt_oid_name_map
      then ok (some 0)
      else counter_by u table_name oid (find oid u.oid_lag_name_map))

truncate_bound : (n : ℕ) → truncate n < 2 ^ 32
unfolding truncate
truncate_bound n = omega arith

-- A value that fits an AgentX counter.
abbrev pub Fits : Option ℕ → Type 0
Fits none = Unit
Fits (some n) = n < 2 ^ 32

truncated-Fits : (n : Option ℕ) → Fits (truncated n)
unfolding truncated
truncated-Fits none = tt
truncated-Fits (some n) = truncate_bound n

counter_in-Fits : (name : Text) (counters : Option Counters) → Fits (counter_in name counters)
unfolding counter_in
counter_in-Fits name none = tt
counter_in-Fits name (some counters) = truncated-Fits (find name counters)

get_counter_at-Fits :
    (u : InterfacesUpdater) (oid : Option ℕ) (name : Text) → Fits (get_counter_at u oid name)
unfolding get_counter_at
get_counter_at-Fits u oid name = counter_in-Fits name (find oid u.if_counters)

abbrev pub ResultFits : Result (Option ℕ) → Type 0
ResultFits (err e) = Unit
ResultFits (ok value) = Fits value

bind-ResultFits :
    {A : Type 0} (r : Result A) (next : A → Result (Option ℕ))
    → ((a : A) → ResultFits (next a))
    → ResultFits (r >>= next)
bind-ResultFits (err e) next f = tt
bind-ResultFits (ok a) next f = f a

module _ (port_util : PortUtil) where
  lag_counter-ResultFits :
      (u : InterfacesUpdater) (lag_name table_name : Text)
      → ResultFits (lag_counter port_util u lag_name table_name)
  unfolding lag_counter
  lag_counter-ResultFits u lag_name table_name =
      bind-ResultFits (item lag_name u.lag_name_if_name_map) _ (λ members.
        bind-ResultFits (sum_members port_util u table_name members 0) _ (λ total.
          bind-ResultFits (item lag_name u.lag_sai_map) _ (λ sai_lag_id.
            bind-ResultFits (lag_rif_drops u (find sai_lag_id u.port_rif_map) table_name) _
              (λ drops. truncate_bound (total + drops)))))

  counter_by-ResultFits :
      (u : InterfacesUpdater) (table_name : Text) (oid : ℕ) (lag : Option Text)
      → ResultFits (counter_by port_util u table_name oid lag)
  unfolding counter_by
  counter_by-ResultFits u table_name oid none = get_counter_at-Fits u (some oid) table_name
  counter_by-ResultFits u table_name oid (some lag_name) =
      lag_counter-ResultFits u lag_name table_name

  with_oid-ResultFits :
      (o : Option ℕ) (next : ℕ → Result (Option ℕ))
      → ((n : ℕ) → ResultFits (next n))
      → ResultFits (with_oid o next)
  unfolding with_oid
  with_oid-ResultFits none next f = tt
  with_oid-ResultFits (some oid) next f = elim (Bool-cases (oid == 0)) [
    | inl e ↦ rw e tt
    | inr e ↦ rw e (f oid)
  ]

  -- A counter of an interface that is returned is below 2^32, whether it is that of a port, of a
  -- management port or of a LAG.
  pub get_counter-ResultFits :
      (u : InterfacesUpdater) (table_name : Text) (sub_id : List ℕ)
      → ResultFits (get_counter port_util u table_name sub_id)
  unfolding get_counter
  get_counter-ResultFits u table_name sub_id = with_oid-ResultFits (get_oid u sub_id) _ (λ oid.
      elim (Bool-cases (contains (some oid) u.mgmt_oid_name_map)) [
        | inl e ↦ rw e (omega arith)
        | inr e ↦ rw e (counter_by-ResultFits u table_name oid (find oid u.oid_lag_name_map))
      ])
