-- ===== src/Mibs/Interfaces.antt =====
-- src/sonic_ax_impl/mibs/ietf/rfc1213.py: the state of InterfacesUpdater and its update.
pub mod Counters
pub mod Handlers
pub mod Lag
pub mod Reinit
pub mod Table
use sonic_snmpagent.Prelude.{
  ℕ, ◌+◌, List, [], ◌∷◌, ◌++◌, map, Option, none, some, Result, ok, err, key_error, type_error,
  ◌>>=◌,
}
use sonic_snmpagent.Dict.{Dict, find, item, set, keys, nat_eq, list_eq, option_eq}
use sonic_snmpagent.Strings.{Text, codes, to_int}
use sonic_snmpagent.Mibs.Effect.{Effect, and_then, with_result, for_each}
use sonic_snmpagent.Mibs.Keys.{counters_db, counter_table, split_sai_id_key}
use sonic_snmpagent.Mibs.Namespace.{DbConn, or_empty, dbs_get_all, get_namespace_db_map}
use sonic_snmpagent.Mibs.Numbers.{sort_nat, single}
use sonic_snmpagent.Mibs.PortUtil.{PortUtil}

abbrev pub Counters : Type 0
Counters = Dict Text ℕ

-- The caches are keyed by what `get_index_from_str` gives, which may be `None`.
pub record InterfacesUpdater : Type 0 where
  pub db_conn : List DbConn
  pub lag_name_if_name_map : Dict Text (List Text)
  pub oid_lag_name_map : Dict ℕ Text
  pub lag_sai_map : Dict Text Text
  pub mgmt_oid_name_map : Dict (Option ℕ) Text
  pub mgmt_alias_map : Dict Text Text
  pub vlan_oid_name_map : Dict ℕ Text
  pub vlan_name_map : Dict Text Text
  pub rif_port_map : Dict Text Text
  pub port_rif_map : Dict Text Text
  pub if_alias_map : Dict Text Text
  pub if_id_map : Dict Text Text
  pub oid_name_map : Dict ℕ Text
  pub if_counters : Dict (Option ℕ) Counters
  pub rif_counters : Dict Text Counters
  pub if_range : List (List ℕ)

-- `{counter: int(value) for counter, value in data.items()}`
unfoldable pub int_values : Dict Text Text → Result Counters
int_values [] = ok []
int_values ((counter, value) ∷ data_) = do
  n ← to_int value
  rest ← int_values data_
  ok ((counter, n) ∷ rest)

-- `mibs.RIF_DROPS_AGGR_MAP`
abbrev pub rif_drops_aggr_map : Dict Text Text
rif_drops_aggr_map =
    (codes "SAI_PORT_STAT_IF_IN_DISCARDS", codes "SAI_ROUTER_INTERFACE_STAT_IN_ERROR_PACKETS")
    ∷ (codes "SAI_PORT_STAT_IF_OUT_DISCARDS", codes "SAI_ROUTER_INTERFACE_STAT_OUT_ERROR_PACKETS")
    ∷ []

-- `mibs.RIF_COUNTERS_AGGR_MAP`
abbrev pub rif_counters_aggr_map : Dict Text Text
rif_counters_aggr_map =
    (codes "SAI_PORT_STAT_IF_IN_OCTETS", codes "SAI_ROUTER_INTERFACE_STAT_IN_OCTETS")
    ∷ (codes "SAI_PORT_STAT_IF_IN_UCAST_PKTS", codes "SAI_ROUTER_INTERFACE_STAT_IN_PACKETS")
    ∷ (codes "SAI_PORT_STAT_IF_IN_DISCARDS", codes "SAI_ROUTER_INTERFACE_STAT_IN_ERROR_PACKETS")
    ∷ (codes "SAI_PORT_STAT_IF_OUT_OCTETS", codes "SAI_ROUTER_INTERFACE_STAT_OUT_OCTETS")
    ∷ (codes "SAI_PORT_STAT_IF_OUT_UCAST_PKTS", codes "SAI_ROUTER_INTERFACE_STAT_OUT_PACKETS")
    ∷ (codes "SAI_PORT_STAT_IF_OUT_DISCARDS", codes "SAI_ROUTER_INTERFACE_STAT_OUT_ERROR_PACKETS")
    ∷ []

-- `counters.get(name, 0)`
unfoldable pub get_or_zero : Text → Counters → ℕ
get_or_zero name counters = elim (find name counters) [ none ↦ 0 | some n ↦ n ]

-- The L3 drops of a router interface added to the counters of its port.
unfoldable pub add_drops : Counters → Dict Text Text → Counters → Counters
unfolding get_or_zero
add_drops rif [] port = port
add_drops rif ((port_counter_name, rif_counter_name) ∷ more) port = add_drops rif more (
    set port_counter_name (get_or_zero port_counter_name port + get_or_zero rif_counter_name rif)
      port)

-- The counters of the router interface of a vlan that it has, under the names of a port.
unfoldable pub take_counters :
    Option ℕ → Counters → Dict Text Text → Dict (Option ℕ) Counters → Dict (Option ℕ) Counters
unfolding or_empty
take_counters vlan_idx rif [] if_counters = if_counters
take_counters vlan_idx rif ((port_counter_name, rif_counter_name) ∷ more) if_counters =
    take_counters vlan_idx rif more (elim (find rif_counter_name rif) [
      | none ↦ if_counters
      | some n ↦
          set vlan_idx (set port_counter_name n (or_empty (find vlan_idx if_counters))) if_counters
    ])

-- Sorting None among numbers raises TypeError. A list of None alone could be sorted; it is refused
-- here too, since it gives no sub-identifier of numbers.
unfoldable pub numbers : List (Option ℕ) → Result (List ℕ)
numbers [] = ok []
numbers (none ∷ more) = err type_error
numbers (some n ∷ more) = do rest ← numbers more; ok (n ∷ rest)

unfoldable pub range_of : InterfacesUpdater → Result (List (List ℕ))
unfolding numbers
range_of u = do
  mgmt ← numbers (keys u.mgmt_oid_name_map)
  ok (
      map single (
        sort_nat
          (keys u.oid_name_map ++ (keys u.oid_lag_name_map ++ (mgmt ++ keys u.vlan_oid_name_map)))))

module _ (port_util : PortUtil) where
  unfoldable pub update_if_counter : Text × Text → InterfacesUpdater → Effect InterfacesUpdater
  unfolding or_empty int_values
  update_if_counter (sai_id_key, if_name) u =
      let (namespace, sai_id) = split_sai_id_key sai_id_key in
      with_result (item namespace (get_namespace_db_map [] u.db_conn)) u (λ db.
        with_result (int_values (or_empty (db.get_all counters_db (counter_table sai_id)))) u
          (λ counters. (
            ok tt,
            record u {
              if_counters = set (port_util.get_index_from_str if_name) counters u.if_counters;
            },
          )))

  unfoldable pub update_if_counters : InterfacesUpdater → Effect InterfacesUpdater
  unfolding update_if_counter
  update_if_counters u = for_each update_if_counter u.if_id_map u

  unfoldable pub update_rif_counter : Text → InterfacesUpdater → Effect InterfacesUpdater
  unfolding int_values
  update_rif_counter sai_id u =
      with_result
        (int_values (dbs_get_all u.db_conn counters_db (counter_table (split_sai_id_key sai_id).1)))
        u (λ counters. (ok tt, record u { rif_counters = set sai_id counters u.rif_counters }))

  unfoldable pub update_rif_counters : InterfacesUpdater → Effect InterfacesUpdater
  unfolding update_rif_counter
  update_rif_counters u =
      for_each update_rif_counter (keys u.rif_port_map ++ keys u.vlan_name_map) u

  -- The counters of the port and of its router interface, if both are cached.
  unfoldable pub aggregate_at : Option Text → Text → InterfacesUpdater → Effect InterfacesUpdater
  unfolding add_drops
  aggregate_at none rif_sai_id u = (ok tt, u)
  aggregate_at (some if_name) rif_sai_id u =
      let port_idx = port_util.get_index_from_str if_name in
      with_result (item port_idx u.if_counters) u (λ port.
        with_result (item rif_sai_id u.rif_counters) u (λ rif. (
          ok tt,
          record u {
            if_counters = set port_idx (add_drops rif rif_drops_aggr_map port) u.if_counters;
          },
        )))

  unfoldable pub aggregate_port : Text × Text → InterfacesUpdater → Effect InterfacesUpdater
  unfolding aggregate_at
  aggregate_port (rif_sai_id, port_sai_id) u =
      aggregate_at (find port_sai_id u.if_id_map) rif_sai_id u

  unfoldable pub aggregate_vlan : Text × Text → InterfacesUpdater → Effect InterfacesUpdater
  unfolding take_counters
  aggregate_vlan (vlan_sai_id, vlan_name) u =
      with_result (item vlan_sai_id u.rif_counters) u (λ rif. (
        ok tt,
        record u {
          if_counters =
              take_counters (port_util.get_index_from_str vlan_name) rif rif_counters_aggr_map
                u.if_counters;
        },
      ))

  unfoldable pub aggregate_counters : InterfacesUpdater → Effect InterfacesUpdater
  unfolding aggregate_port aggregate_vlan
  aggregate_counters u =
      and_then (for_each aggregate_port u.rif_port_map u)
        (λ u'. for_each aggregate_vlan u'.vlan_name_map u')

  unfoldable pub set_range : InterfacesUpdater → Effect InterfacesUpdater
  unfolding range_of
  set_range u = with_result (range_of u) u (λ range. (ok tt, record u { if_range = range }))

  unfoldable pub update_data : InterfacesUpdater → Effect InterfacesUpdater
  unfolding update_if_counters update_rif_counters aggregate_counters set_range
  update_data u =
      and_then (update_if_counters u)
        (λ u1. and_then (update_rif_counters u1) (λ u2. and_then (aggregate_counters u2) set_range))
