-- ===== src/Mibs/IfMib/Bounds.antt =====
-- The width of the counters of src/sonic_ax_impl/mibs/ietf/rfc2863.py.
use sonic_snmpagent.Prelude.{
  ℕ, zero, suc, ◌+◌, ◌%◌, ◌^◌, ◌≤◌, ◌<◌, arith, List, [], ◌∷◌, Option, none, some, Result, ok, err,
  ◌>>=◌, Bool-cases, inl, inr,
}
use sonic_snmpagent.Dict.{Dict, find, item, contains, nat_eq, list_eq, option_eq}
use sonic_snmpagent.Strings.{Text, to_int}
use sonic_snmpagent.Mibs.PortUtil.{PortUtil}
use sonic_snmpagent.Mibs.IfMib.{
  InterfaceMibUpdater, masked, counter_in, add_member, sum_members, lag_of, counter_by, get_counter,
}

power_pos : (bits : ℕ) → 1 ≤ 2 ^ bits
power_pos zero = omega arith
power_pos (suc bits) = let h = power_pos bits in omega arith

mod_lt : (n k : ℕ) → 1 ≤ k → n % k < k
mod_lt n zero h = absurd (omega arith)
mod_lt n (suc k) h = omega arith

-- A value that a mask of so many bits leaves.
abbrev pub Fits : ℕ → Result (Option ℕ) → Type 0
Fits bits (err e) = Unit
Fits bits (ok none) = Unit
Fits bits (ok (some n)) = n < 2 ^ bits

bind-Fits :
    {A : Type 0} (bits : ℕ) (r : Result A) (next : A → Result (Option ℕ))
    → ((a : A) → Fits bits (next a))
    → Fits bits (r >>= next)
bind-Fits bits (err e) next f = tt
bind-Fits bits (ok a) next f = f a

masked-Fits : (bits : ℕ) (text : Option Text) → Fits bits (masked bits text)
unfolding masked
masked-Fits bits none = tt
masked-Fits bits (some text) =
    bind-Fits bits (to_int text) (λ n. ok (some (n % 2 ^ bits)))
      (λ n. mod_lt n (2 ^ bits) (power_pos bits))

counter_in-Fits :
    (bits : ℕ) (table_name : Text) (counters : Option (Dict Text Text))
    → Fits bits (counter_in bits table_name counters)
unfolding counter_in
counter_in-Fits bits table_name none = tt
counter_in-Fits bits table_name (some counters) = masked-Fits bits (find table_name counters)

add_member-Fits :
    (bits total : ℕ) (n : Option ℕ) (next : ℕ → Result (Option ℕ))
    → ((m : ℕ) → Fits bits (next m))
    → Fits bits (add_member total n next)
unfolding add_member
add_member-Fits bits total none next f = tt
add_member-Fits bits total (some n) next f = f (total + n)

sum_members-Fits :
    (bits : ℕ) (counter : Text → Result (Option ℕ)) (members : List Text) (total : ℕ)
    → Fits bits (sum_members bits counter members total)
unfolding sum_members
sum_members-Fits bits counter [] total = mod_lt total (2 ^ bits) (power_pos bits)
sum_members-Fits bits counter (m ∷ members) total =
    bind-Fits bits (counter m) _
      (λ n. add_member-Fits bits total n _ (λ t. sum_members-Fits bits counter members t))

counter_by-Fits :
    (u : InterfaceMibUpdater) (bits : ℕ) (table_name : Text) (counter : Text → Result (Option ℕ))
    (oid : Option ℕ) (lag : Option Text)
    → Fits bits (counter_by u bits table_name counter oid lag)
unfolding counter_by
counter_by-Fits u bits table_name counter oid none =
    counter_in-Fits bits table_name (find oid u.if_counters)
counter_by-Fits u bits table_name counter oid (some lag_name) =
    bind-Fits bits (item lag_name u.lag_name_if_name_map) _
      (λ members. sum_members-Fits bits counter members 0)

-- A counter that _get_counter returns is below 2 to the number of bits of its mask, whether it is
-- that of a port, of a management port or of a LAG, whose sum is masked again, and whatever the
-- depth of the calls.
pub get_counter-Fits :
    (port_util : PortUtil) (u : InterfaceMibUpdater) (bits : ℕ) (table_name : Text) (fuel : ℕ)
    (oid : Option ℕ)
    → Fits bits (get_counter port_util u bits table_name fuel oid)
unfolding get_counter
get_counter-Fits port_util u bits table_name zero oid = tt
get_counter-Fits port_util u bits table_name (suc fuel) oid =
    elim (Bool-cases (contains oid u.mgmt_oid_name_map)) [
      | inl e ↦ rw e (power_pos bits)
      | inr e ↦ rw e (counter_by-Fits u bits table_name _ oid (lag_of u oid))
    ]
