-- ===== src/Mibs/Interfaces/Lag.antt =====
-- The counter of a LAG as the sum of the counters of its ports.
use sonic_snmpagent.Prelude.{
  ℕ, ◌+◌, ◌%◌, ◌^◌, ◌≡◌, refl, ap, arith, List, [], ◌∷◌, Option, none, some, ok,
}
use sonic_snmpagent.Dict.{find, item_lem, nat_eq, list_eq, option_eq}
use sonic_snmpagent.Strings.{Text}
use sonic_snmpagent.Mibs.PortUtil.{PortUtil}
use sonic_snmpagent.Mibs.Interfaces.{InterfacesUpdater, Counters}
use sonic_snmpagent.Mibs.Interfaces.Counters.{
  add_counter, counter_in, get_counter_at, truncated, truncate, sum_members, lag_counter,
  lag_rif_drops,
}

-- The counter as the database holds it.
abbrev raw_in : Text → Option Counters → Option ℕ
raw_in name none = none
raw_in name (some counters) = find name counters

abbrev plus : Option ℕ → Option ℕ → Option ℕ
plus none b = none
plus (some a) none = none
plus (some a) (some b) = some (a + b)

module _ (port_util : PortUtil) (u : InterfacesUpdater) (name : Text) where
  -- The sum of the counters of the ports, if all of them are there.
  abbrev pub raw_total : List Text → Option ℕ
  raw_total [] = some 0
  raw_total (m ∷ members) =
      plus (raw_in name (find (port_util.get_index_from_str m) u.if_counters)) (raw_total members)

  plus-some :
      (a b : Option ℕ) (n : ℕ)
      → plus a b ≡ some n
      → (x : ℕ) × (y : ℕ) × (a ≡ some x) × (b ≡ some y) × (n ≡ x + y)
  plus-some none b n h = absurd cc
  plus-some (some a) none n h = absurd cc
  plus-some (some a) (some b) n h = (a, b, refl, refl, cc)

  counter_in-raw :
      (counters : Option Counters) (x : ℕ)
      → raw_in name counters ≡ some x
      → counter_in name counters ≡ some (x % 2 ^ 32)
  unfolding counter_in truncated truncate
  counter_in-raw none x h = absurd cc
  counter_in-raw (some counters) x h = rw h refl

  sum_members_raw :
      (members : List Text) (total raw : ℕ)
      → raw_total members ≡ some raw
      → (sum : ℕ) × (sum_members port_util u name members total ≡ ok sum)
        × (sum % 2 ^ 32 ≡ (total + raw) % 2 ^ 32)
  unfolding sum_members get_counter_at add_counter
  sum_members_raw [] total raw h = (total, refl, (let z : raw ≡ 0 = cc in rw z (omega arith)))
  sum_members_raw (m ∷ members) total raw h =
      let counters = find (port_util.get_index_from_str m) u.if_counters in
      let (x, y, p, q, e) = plus-some (raw_in name counters) (raw_total members) raw h in
      let (sum, r, w) = sum_members_raw members (total + x % 2 ^ 32) y q in
      (sum, rw (counter_in-raw counters x p) r, rw e (omega (arith, w)))

  -- The counter of a LAG is the sum of the full counters of its ports and of the drops of its
  -- router interface, cut to 32 bits once, although the counter of each port is cut before it is
  -- added. The LAG has ports and a SAI id, and the counters are there.
  pub lag_counter_total :
      (lag_name sai_lag_id : Text) (members : List Text) (raw drops : ℕ)
      → find lag_name u.lag_name_if_name_map ≡ some members
      → find lag_name u.lag_sai_map ≡ some sai_lag_id
      → raw_total members ≡ some raw
      → lag_rif_drops u (find sai_lag_id u.port_rif_map) name ≡ ok drops
      → lag_counter port_util u lag_name name ≡ ok (some ((raw + drops) % 2 ^ 32))
  unfolding lag_counter truncate
  lag_counter_total lag_name sai_lag_id members raw drops m s r d =
      let (sum, e, w) = sum_members_raw members 0 raw r in
      rw
        (
          item_lem lag_name members u.lag_name_if_name_map m,
          e,
          item_lem lag_name sai_lag_id u.lag_sai_map s,
          d,
        )
        (ap (λ n. ok (some n)) (omega (arith, w)))
