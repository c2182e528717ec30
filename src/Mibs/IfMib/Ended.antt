-- ===== src/Mibs/IfMib/Ended.antt =====
-- The counters that come to an end: every step of _get_counter but the call of itself.
use sonic_snmpagent.Prelude.{
  ℕ, ◌+◌, ◌%◌, ◌^◌, ◌≡◌, ◌≢◌, refl, List, [], ◌∷◌, All, Option, none, some, Result, ok, err,
  out_of_fuel, false, ◌>>=◌,
}
use sonic_snmpagent.Dict.{Dict, find, item, or_key_error, item-ok, list_eq, option_eq}
use sonic_snmpagent.Strings.{Text, to_int, number_of, scan, skip_plus, strip}
use sonic_snmpagent.Mibs.IfMib.{
  InterfaceMibUpdater, masked, counter_in, add_member, sum_members, counter_by,
}

-- Returned, or raised an exception of Python.
abbrev pub IsEnded {ℓ} : {A : Type ℓ} → Result A → Type 0
IsEnded (ok a) = Unit
IsEnded (err e) = e ≢ out_of_fuel

pub IsEnded-ne : (r : Result (Option ℕ)) → IsEnded r → r ≢ err out_of_fuel
IsEnded-ne (ok a) h p = cc
IsEnded-ne (err e) h p = h cc

bind-IsEnded :
    {A : Type 0} (r : Result A) (next : A → Result (Option ℕ))
    → IsEnded r
    → ((a : A) → r ≡ ok a → IsEnded (next a))
    → IsEnded (r >>= next)
bind-IsEnded (err e) next h f = h
bind-IsEnded (ok a) next h f = f a refl

number_of-IsEnded : (digits : Option Text) → IsEnded (number_of digits)
unfolding number_of
number_of-IsEnded none = λ p. cc
number_of-IsEnded (some digits) = tt

to_int-IsEnded : (text : Text) → IsEnded (to_int text)
unfolding to_int
to_int-IsEnded text = number_of-IsEnded (scan false (skip_plus (strip text)))

masked-IsEnded : (bits : ℕ) (text : Option Text) → IsEnded (masked bits text)
unfolding masked
masked-IsEnded bits none = tt
masked-IsEnded bits (some text) =
    bind-IsEnded (to_int text) (λ n. ok (some (n % 2 ^ bits))) (to_int-IsEnded text) (λ n e. tt)

counter_in-IsEnded :
    (bits : ℕ) (table_name : Text) (counters : Option (Dict Text Text))
    → IsEnded (counter_in bits table_name counters)
unfolding counter_in
counter_in-IsEnded bits table_name none = tt
counter_in-IsEnded bits table_name (some counters) = masked-IsEnded bits (find table_name counters)

or_key_error-IsEnded {ℓ} : {V : Type ℓ} (o : Option V) → IsEnded (or_key_error o)
or_key_error-IsEnded none = λ p. cc
or_key_error-IsEnded (some v) = tt

add_member-IsEnded :
    (total : ℕ) (n : Option ℕ) (next : ℕ → Result (Option ℕ))
    → ((m : ℕ) → IsEnded (next m))
    → IsEnded (add_member total n next)
unfolding add_member
add_member-IsEnded total none next f = tt
add_member-IsEnded total (some n) next f = f (total + n)

sum_members-IsEnded :
    (bits : ℕ) (counter : Text → Result (Option ℕ)) (members : List Text) (total : ℕ)
    → All (λ m. IsEnded (counter m)) members
    → IsEnded (sum_members bits counter members total)
unfolding sum_members
sum_members-IsEnded bits counter [] total h = tt
sum_members-IsEnded bits counter (m ∷ members) total (e, h) =
    bind-IsEnded (counter m) (λ n. add_member total n (sum_members bits counter members)) e
      (λ n p.
        add_member-IsEnded total n (sum_members bits counter members)
          (λ t. sum_members-IsEnded bits counter members t h))

module _ (u : InterfaceMibUpdater) (bits : ℕ) (table_name : Text)
    (counter : Text → Result (Option ℕ)) (oid : Option ℕ) where
  pub table-IsEnded : IsEnded (counter_by u bits table_name counter oid none)
  unfolding counter_by
  table-IsEnded = counter_in-IsEnded bits table_name (find oid u.if_counters)

  pub counter_by-IsEnded :
      (lag : Option Text)
      → ((lag_name : Text) (members : List Text)
          → find lag_name u.lag_name_if_name_map ≡ some members
          → All (λ m. IsEnded (counter m)) members)
      → IsEnded (counter_by u bits table_name counter oid lag)
  unfolding counter_by
  counter_by-IsEnded none h = counter_in-IsEnded bits table_name (find oid u.if_counters)
  counter_by-IsEnded (some lag_name) h =
      bind-IsEnded (item lag_name u.lag_name_if_name_map)
        (λ members. sum_members bits counter members 0)
        (or_key_error-IsEnded (find lag_name u.lag_name_if_name_map))
        (λ members e.
          sum_members-IsEnded bits counter members 0
            (h lag_name members (item-ok lag_name members u.lag_name_if_name_map e)))
