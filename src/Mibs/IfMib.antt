-- ===== src/Mibs/IfMib.antt =====
-- src/sonic_ax_impl/mibs/ietf/rfc2863.py: the state of InterfaceMIBUpdater and its counters.
pub mod Handlers
pub mod Ended
pub mod Fuel
pub mod Bounds
use sonic_snmpagent.Prelude.{
  ℕ, zero, suc, ◌+◌, ◌%◌, ◌^◌, List, [], ◌∷◌, ◌++◌, map, Option, none, some, Result, ok, err,
  out_of_fuel, ◌>>=◌, if◌then◌else◌,
}
use sonic_snmpagent.Dict.{Dict, find, item, set, keys, contains, nat_eq, list_eq, option_eq}
use sonic_snmpagent.Strings.{Text, to_int}
use sonic_snmpagent.Mibs.Effect.{Effect, and_then, with_result, for_each}
use sonic_snmpagent.Mibs.Keys.{counters_db, counter_table, split_sai_id_key}
use sonic_snmpagent.Mibs.Namespace.{DbConn, or_empty, get_namespace_db_map}
use sonic_snmpagent.Mibs.Numbers.{sort_nat, single}
use sonic_snmpagent.Mibs.PortUtil.{PortUtil}
use sonic_snmpagent.Mibs.Tables.{merged, init_sync_d_interface_tables, init_sync_d_vlan_tables}
use sonic_snmpagent.Mibs.Tables.Lags.{init_sync_d_lag_tables}
use sonic_snmpagent.Mibs.Tables.Mgmt.{init_mgmt_interface_tables}
use sonic_snmpagent.Mibs.Rows.{item_at}
use sonic_snmpagent.Mibs.Interfaces.{numbers}

-- The counters are kept as the texts of the database.
pub record InterfaceMibUpdater : Type 0 where
  pub db_conn : List DbConn
  pub lag_name_if_name_map : Dict Text (List Text)
  pub oid_lag_name_map : Dict ℕ Text
  pub mgmt_oid_name_map : Dict (Option ℕ) Text
  pub mgmt_alias_map : Dict Text Text
  pub vlan_oid_name_map : Dict ℕ Text
  pub if_counters : Dict (Option ℕ) (Dict Text Text)
  pub if_range : List (List ℕ)
  pub if_alias_map : Dict Text Text
  pub if_id_map : Dict Text Text
  pub oid_name_map : Dict ℕ Text

unfoldable pub range_of : InterfaceMibUpdater → Result (List (List ℕ))
range_of u = do
  mgmt ← numbers (keys u.mgmt_oid_name_map)
  ok (
      map single (
        sort_nat
          (keys u.oid_name_map ++ (keys u.oid_lag_name_map ++ (mgmt ++ keys u.vlan_oid_name_map)))))

unfoldable pub set_range : InterfaceMibUpdater → Effect InterfaceMibUpdater
unfolding range_of
set_range u = with_result (range_of u) u (λ range. (ok tt, record u { if_range = range }))

module _ (port_util : PortUtil) where
  -- The maps that are assigned together, or none of them if one cannot be read.
  unfoldable pub reinit_ports : InterfaceMibUpdater → Effect InterfaceMibUpdater
  reinit_ports u =
      with_result
        (do
          if_alias_map ←
              merged (init_sync_d_interface_tables port_util) (λ t. t.if_alias_map) u.db_conn
          if_id_map ← merged (init_sync_d_interface_tables port_util) (λ t. t.if_id_map) u.db_conn
          oid_name_map ←
              merged (init_sync_d_interface_tables port_util) (λ t. t.oid_name_map) u.db_conn
          ok (record u {
            if_alias_map = if_alias_map;
            if_id_map = if_id_map;
            oid_name_map = oid_name_map;
          }))
        u (λ u'. (ok tt, u'))

  unfoldable pub read_lags : InterfaceMibUpdater → Effect InterfaceMibUpdater
  read_lags u =
      with_result
        (do
          lag_names ←
              merged (init_sync_d_lag_tables port_util) (λ t. t.lag_name_if_name_map) u.db_conn
          oid_names ← merged (init_sync_d_lag_tables port_util) (λ t. t.oid_lag_name_map) u.db_conn
          ok (record u { lag_name_if_name_map = lag_names; oid_lag_name_map = oid_names }))
        u (λ u'. (ok tt, u'))

  unfoldable pub reinit_mgmt : InterfaceMibUpdater → Effect InterfaceMibUpdater
  reinit_mgmt u =
      with_result
        (do
          db_conn ← item_at u.db_conn 0
          (oid_names, aliases) ← init_mgmt_interface_tables port_util db_conn
          ok (record u { mgmt_oid_name_map = oid_names; mgmt_alias_map = aliases }))
        u (λ u'. (ok tt, u'))

  unfoldable pub reinit_vlans : InterfaceMibUpdater → Effect InterfaceMibUpdater
  reinit_vlans u =
      with_result
        (merged (λ db. ok (init_sync_d_vlan_tables port_util db)) (λ t. t.oid_name_map) u.db_conn) u
        (λ oid_names. (ok tt, record u { vlan_oid_name_map = oid_names }))

  unfoldable pub reinit_data : InterfaceMibUpdater → Effect InterfaceMibUpdater
  unfolding reinit_ports read_lags reinit_mgmt reinit_vlans set_range
  reinit_data u = and_then (reinit_ports u) (λ u1.
      and_then (read_lags u1)
        (λ u2. and_then (reinit_mgmt u2) (λ u3. and_then (reinit_vlans u3) set_range)))

  unfoldable pub update_counter : Text × Text → InterfaceMibUpdater → Effect InterfaceMibUpdater
  unfolding or_empty
  update_counter (sai_id_key, if_name) u =
      let (namespace, sai_id) = split_sai_id_key sai_id_key in
      with_result (item namespace (get_namespace_db_map [] u.db_conn)) u (λ db. (
        ok tt,
        record u {
          if_counters =
              set (port_util.get_index_from_str if_name)
                (or_empty (db.get_all counters_db (counter_table sai_id))) u.if_counters;
        },
      ))

  unfoldable pub update_data : InterfaceMibUpdater → Effect InterfaceMibUpdater
  unfolding update_counter read_lags set_range
  update_data u =
      and_then (for_each update_counter u.if_id_map u) (λ u1. and_then (read_lags u1) set_range)

-- `int(counter_value) & mask`, for a mask of so many bits.
unfoldable pub masked : ℕ → Option Text → Result (Option ℕ)
masked bits none = ok none
masked bits (some text) = do n ← to_int text; ok (some (n % 2 ^ bits))

-- A missing counter is a KeyError, which is caught.
unfoldable pub counter_in : ℕ → Text → Option (Dict Text Text) → Result (Option ℕ)
unfolding masked
counter_in bits table_name none = ok none
counter_in bits table_name (some counters) = masked bits (find table_name counters)

-- `None` of a port ends the sum.
unfoldable pub add_member : ℕ → Option ℕ → (ℕ → Result (Option ℕ)) → Result (Option ℕ)
add_member total none next = ok none
add_member total (some n) next = next (total + n)

-- The loop over the ports of a LAG, whose counters `counter` gives.
unfoldable pub sum_members : ℕ → (Text → Result (Option ℕ)) → List Text → ℕ → Result (Option ℕ)
unfolding add_member
sum_members bits counter [] total = ok (some (total % 2 ^ bits))
sum_members bits counter (lag_member ∷ members) total =
    counter lag_member >>= λ n. add_member total n (sum_members bits counter members)

unfoldable pub lag_of : InterfaceMibUpdater → Option ℕ → Option Text
lag_of u none = none
lag_of u (some oid) = find oid u.oid_lag_name_map

-- The counter of a port, or the sum over a LAG.
unfoldable pub counter_by :
    InterfaceMibUpdater
    → ℕ
    → Text
    → (Text → Result (Option ℕ))
    → Option ℕ
    → Option Text
    → Result (Option ℕ)
unfolding counter_in sum_members
counter_by u bits table_name counter oid none = counter_in bits table_name (find oid u.if_counters)
counter_by u bits table_name counter oid (some lag_name) = do
  members ← item lag_name u.lag_name_if_name_map
  sum_members bits counter members 0

-- `_get_counter` calls itself for the ports of a LAG, `fuel` levels deep.
unfoldable pub get_counter :
    PortUtil → InterfaceMibUpdater → ℕ → Text → ℕ → Option ℕ → Result (Option ℕ)
unfolding counter_by lag_of
get_counter port_util u bits table_name zero oid = err out_of_fuel
get_counter port_util u bits table_name (suc fuel) oid =
    let member = get_counter port_util u bits table_name fuel in
    if contains oid u.mgmt_oid_name_map
    then ok (some 0)
    else counter_by u bits table_name (λ name. member (port_util.get_index_from_str name)) oid
        (lag_of u oid)
