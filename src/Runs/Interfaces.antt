-- ===== src/Runs/Interfaces.antt =====
-- Runs of the interfaces over a small database.
use sonic_snmpagent.Prelude.{◌+◌, ◌%◌, ◌^◌, ◌≡◌, refl, [], ◌∷◌, none, some, ok}
use sonic_snmpagent.Dict.{list_eq}
use sonic_snmpagent.Strings.{Text, codes, split_at, to_int}
use sonic_snmpagent.Order.{In}
use sonic_snmpagent.Mib.Entry.{call}
use sonic_snmpagent.Mib.Successor.{IsLawful}
use sonic_snmpagent.Mibs.Namespace.{DbConn, get_namespace_db_map}
use sonic_snmpagent.Mibs.Effect.{and_then, for_each, with_result}
use sonic_snmpagent.Mibs.Keys.{split_sai_id_key}
use sonic_snmpagent.Mibs.Numbers.{sort_nat}
use sonic_snmpagent.Mibs.OidTree.{
  RedisOidTreeUpdater, overlaid, overlaid-IsLawful, laid_over, get_oidvalue,
}
use sonic_snmpagent.Mibs.Interfaces
use sonic_snmpagent.Mibs.Interfaces.{InterfacesUpdater}
use sonic_snmpagent.Mibs.Interfaces.Counters.{lag_counter, lag_rif_drops}
use sonic_snmpagent.Mibs.Interfaces.Lag.{lag_counter_total}
use sonic_snmpagent.Mibs.Interfaces.Table.{if_oper_status, oper_status-IsLawful}
use sonic_snmpagent.Runs.Mibs.{ports}

abbrev in_octets : Text
in_octets = codes "SAI_PORT_STAT_IF_IN_OCTETS"

-- The counters of one port, one above 32 bits.
abbrev counters : DbConn
counters = record {
  namespace = [];
  keys = λ db pattern. none;
  get_all = λ db key. some ((in_octets, codes "4294967301") ∷ []);
}

-- A port, and a LAG of that port.
abbrev interfaces : InterfacesUpdater
interfaces = record {
  db_conn = counters ∷ [];
  lag_name_if_name_map = (codes "PortChannel1", codes "Ethernet0" ∷ []) ∷ [];
  oid_lag_name_map = (1001, codes "PortChannel1") ∷ [];
  lag_sai_map = (codes "PortChannel1", codes "200") ∷ [];
  mgmt_oid_name_map = [];
  mgmt_alias_map = [];
  vlan_oid_name_map = [];
  vlan_name_map = [];
  rif_port_map = [];
  port_rif_map = [];
  if_alias_map = [];
  if_id_map = (codes "100", codes "Ethernet0") ∷ [];
  oid_name_map = (1, codes "Ethernet0") ∷ [];
  if_counters = [];
  rif_counters = [];
  if_range = [];
}

abbrev interfaces' : InterfacesUpdater
interfaces' = record interfaces {
  if_counters = (some 1, (in_octets, 4294967301) ∷ []) ∷ [];
  if_range = (1 ∷ []) ∷ (1001 ∷ []) ∷ [];
}

interfaces_run : Interfaces.update_data ports interfaces ≡ (ok tt, interfaces')
unfolding Interfaces.update_data and_then for_each with_result get_namespace_db_map split_sai_id_key
    split_at to_int sort_nat
interfaces_run = refl

oper_status-IsLawful_example :
    IsLawful (if_oper_status interfaces' (1 ∷ 2 ∷ []) 2) (λ k. In k interfaces'.if_range)
oper_status-IsLawful_example =
    oper_status-IsLawful ports interfaces interfaces' (1 ∷ 2 ∷ []) 2 interfaces_run

lag_counter_total_example :
    lag_counter ports interfaces' (codes "PortChannel1") in_octets
    ≡ ok (some ((4294967301 + 0) % 2 ^ 32))
unfolding lag_rif_drops
lag_counter_total_example =
    lag_counter_total ports interfaces' in_octets (codes "PortChannel1") (codes "200")
      (codes "Ethernet0" ∷ []) 4294967301 0 refl refl refl refl

-- A value over the status of the port.
abbrev tree : RedisOidTreeUpdater
tree = record {
  db_conn = [];
  prefix_str = [];
  rows = record { value_map = (1 ∷ 2 ∷ 1 ∷ [], 7) ∷ []; sub_ids = (1 ∷ 2 ∷ 1 ∷ []) ∷ [] };
}

overlaid-IsLawful_example :
    IsLawful
      (overlaid tree (if_oper_status interfaces' (1 ∷ 2 ∷ []) 2))
      (λ k. In k interfaces'.if_range)
    × (call (overlaid tree (if_oper_status interfaces' (1 ∷ 2 ∷ []) 2)) (1 ∷ [])
        ≡ laid_over
            (get_oidvalue tree (1 ∷ 2 ∷ 1 ∷ []))
            (call (if_oper_status interfaces' (1 ∷ 2 ∷ []) 2) (1 ∷ [])))
unfolding if_oper_status
overlaid-IsLawful_example =
    overlaid-IsLawful tree (if_oper_status interfaces' (1 ∷ 2 ∷ []) 2)
      (λ k. In k interfaces'.if_range) (1 ∷ [])
      (oper_status-IsLawful ports interfaces interfaces' (1 ∷ 2 ∷ []) 2 interfaces_run)
