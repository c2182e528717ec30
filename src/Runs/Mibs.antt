-- ===== src/Runs/Mibs.antt =====
-- Runs of the updaters over small databases.
use sonic_snmpagent.Prelude.{
  value_error, err, ℕ, ◌≡◌, inl, inr, refl, List, [], ◌∷◌, Option, none, some, ok, false,
  if◌then◌else◌, Bool-cases,
}
use sonic_snmpagent.Dict.{Dict, ◌≟◌, find, list_eq}
use sonic_snmpagent.Strings.{Text, codes, colon, contains, IsFree-contains, to_int, split_at}
use sonic_snmpagent.Order.{In, sorted, lt_tuple}
use sonic_snmpagent.Mib.Successor.{IsLawful}
use sonic_snmpagent.Mibs.Keys.{
  asic_db, get_neigh_info, get_sai_id_key, split_sai_id_key, split_sai_id_key-get_sai_id_key,
}
use sonic_snmpagent.Mibs.Namespace.{DbConn, dbs_keys, dbs_get_all, get_non_host_dbs, or_empty}
use sonic_snmpagent.Mibs.PortUtil.{PortUtil}
use sonic_snmpagent.Mibs.Route
use sonic_snmpagent.Mibs.Route.{RouteUpdater, MultiAsic, ip_cidr_route_dest}
use sonic_snmpagent.Mibs.Route.Table.{route-IsLawful}
use sonic_snmpagent.Mibs.Arp
use sonic_snmpagent.Mibs.Arp.{ArpUpdater, ip_net_to_media_phys_address}
use sonic_snmpagent.Mibs.Arp.Table.{arp-IsLawful}
use sonic_snmpagent.Mibs.Rows.{no_rows, sort_rows, add_row, item_at}
use sonic_snmpagent.Mibs.Rows.Steps.{then_sort}
use sonic_snmpagent.Mibs.Effect.{for_each, with_result}
use sonic_snmpagent.Util.Ip.{ip2byte_tuple}
use sonic_snmpagent.Util.Mac.{mac_decimals}
use sonic_snmpagent.Mibs.Fdb
use sonic_snmpagent.Mibs.Fdb.{FdbUpdater, dot1q_tp_fdb_port}
use sonic_snmpagent.Mibs.Fdb.Table.{fdb-IsLawful, HasIndices}

split_sai_id_key-get_sai_id_key_example :
    split_sai_id_key (get_sai_id_key (codes "asic0") (codes "1000000000023"))
    ≡ (codes "asic0", codes "1000000000023")
unfolding contains
split_sai_id_key-get_sai_id_key_example =
    split_sai_id_key-get_sai_id_key (codes "asic0") (codes "1000000000023")
      (IsFree-contains colon (codes "asic0") refl)
      (IsFree-contains colon (codes "1000000000023") refl)

-- `Ethernet0` has the index 1, and `PortChannel1` the index 1001.
abbrev pub index_of : Text → Option ℕ
index_of name =
    if name ≟ codes "Ethernet0"
    then some 1
    else if name ≟ codes "PortChannel1"
    then some 1001
    else none

abbrev pub ports : PortUtil
ports = record {
  get_index_from_str = index_of;
  matches_ethernet = λ name. false;
  matches_ethernet_bp = λ name. false;
  matches_ethernet_ib = λ name. false;
  matches_ethernet_rec = λ name. false;
  get_interface_oid_map = λ db. ([], []);
  get_rif_port_map = λ db. [];
  get_vlan_interface_oid_map = λ db. [];
  get_bridge_port_map = λ db. [];
  get_vlan_id_from_bvid = λ db bvid. none;
}

-- What Python's `int` makes of texts.
int_of_signed : to_int (codes " +1_0 ") ≡ ok 10
unfolding to_int
int_of_signed = refl

int_of_double : to_int (codes "1__0") ≡ err value_error
unfolding to_int
int_of_double = refl

-- One entry, on the bridge port 3a.
abbrev fdb_db : DbConn
fdb_db = record {
  namespace = [];
  keys = λ db pattern.
      if db ≟ asic_db then some (codes "ASIC_STATE:SAI_OBJECT_TYPE_FDB_ENTRY:{}" ∷ []) else none;
  get_all = λ db key. some ((codes "SAI_FDB_ENTRY_ATTR_BRIDGE_PORT_ID", codes "oid:0x3a") ∷ []);
}

abbrev entry_json : Text → Option (Dict Text Text)
entry_json text = some ((codes "vlan", codes "10") ∷ (codes "mac", codes "52:54:00:00:00:0A") ∷ [])

abbrev fdb : FdbUpdater
fdb = record {
  db_conn = fdb_db ∷ [];
  if_id_map = (codes "100", codes "Ethernet0") ∷ [];
  sai_lag_map = [];
  if_bpid_map = (codes "3a", codes "100") ∷ [];
  bvid_vlan_map = [];
  broken_fdbs = [];
  rows = no_rows;
}

abbrev fdb' : FdbUpdater
fdb' = record fdb {
  rows = record {
    value_map = (10 ∷ 82 ∷ 84 ∷ 0 ∷ 0 ∷ 0 ∷ 10 ∷ [], some 1) ∷ [];
    sub_ids = (10 ∷ 82 ∷ 84 ∷ 0 ∷ 0 ∷ 0 ∷ 10 ∷ []) ∷ [];
  };
}

fdb_run : Fdb.update_data entry_json ports fdb ≡ (ok tt, fdb')
unfolding Fdb.update_data dbs_keys dbs_get_all to_int mac_decimals split_at sort_rows add_row sorted
    no_rows
fdb_run = refl

found_alone : (id name k v : Text) → find id ((k, v) ∷ []) ≡ some name → name ≡ v
found_alone id name k v h = elim (Bool-cases (id ≟ k)) [ inl e ↦ cc | inr e ↦ cc ]

fdb_indices : HasIndices ports fdb
fdb_indices id name (inl h) = (1, rw (found_alone id name (codes "100") (codes "Ethernet0") h) refl)
fdb_indices id name (inr h) = absurd cc

fdb-IsLawful_example :
    IsLawful (dot1q_tp_fdb_port fdb' (1 ∷ 2 ∷ []) 2) (λ k. In k fdb'.rows.sub_ids)
fdb-IsLawful_example = fdb-IsLawful entry_json ports fdb fdb' (1 ∷ 2 ∷ []) 2 fdb_indices fdb_run

-- No text is an IPv6 address here.
abbrev pub no_ipv6 : Text → Option (List ℕ)
no_ipv6 text = none

-- One default route over two ports of the device, of which one is not on the front panel.
abbrev route_db : DbConn
route_db = record {
  namespace = [];
  keys = λ db pattern. none;
  get_all = λ db key. some (
      (codes "nexthop", codes "10.0.0.1,10.0.0.3") ∷ (codes "ifname", codes "Ethernet0,eth0") ∷ []);
}

abbrev asics : MultiAsic
asics = record {
  front_ns = [];
  get_port_table_for_asic = λ namespace. [];
  is_port_channel_internal = λ ifn namespace. false;
  port_role = codes "role";
  internal_port = codes "Int";
}

abbrev route : RouteUpdater
route = record {
  tos = 0;
  db_conn = route_db ∷ [];
  loips = (codes "10.1.0.32", 10 ∷ 1 ∷ 0 ∷ 32 ∷ []) ∷ [];
  rows = no_rows;
}

abbrev route' : RouteUpdater
route' = record route {
  rows = record {
    value_map =
        (10 ∷ 1 ∷ 0 ∷ 32 ∷ 255 ∷ 255 ∷ 255 ∷ 255 ∷ 0 ∷ 0 ∷ 0 ∷ 0 ∷ 0 ∷ [], 10 ∷ 1 ∷ 0 ∷ 32 ∷ [])
        ∷ (0 ∷ 0 ∷ 0 ∷ 0 ∷ 0 ∷ 0 ∷ 0 ∷ 0 ∷ 0 ∷ 10 ∷ 0 ∷ 0 ∷ 1 ∷ [], 0 ∷ 0 ∷ 0 ∷ 0 ∷ [])
        ∷ [];
    sub_ids =
        (0 ∷ 0 ∷ 0 ∷ 0 ∷ 0 ∷ 0 ∷ 0 ∷ 0 ∷ 0 ∷ 10 ∷ 0 ∷ 0 ∷ 1 ∷ [])
        ∷ (10 ∷ 1 ∷ 0 ∷ 32 ∷ 255 ∷ 255 ∷ 255 ∷ 255 ∷ 0 ∷ 0 ∷ 0 ∷ 0 ∷ 0 ∷ [])
        ∷ [];
  };
}

route_run : Route.update_data no_ipv6 asics route ≡ (ok tt, route')
unfolding Route.update_data then_sort for_each with_result ip2byte_tuple split_at get_non_host_dbs
    sort_rows add_row sorted no_rows lt_tuple
route_run = refl

route-IsLawful_example :
    IsLawful (ip_cidr_route_dest route' (1 ∷ 2 ∷ []) 2) (λ k. In k route'.rows.sub_ids)
route-IsLawful_example = route-IsLawful no_ipv6 asics route route' (1 ∷ 2 ∷ []) 2 route_run

-- One neighbour.
abbrev neigh_db : DbConn
neigh_db = record {
  namespace = [];
  keys = λ db pattern. some (codes "NEIGH_TABLE:Ethernet0:10.0.0.1" ∷ []);
  get_all = λ db key.
      some ((codes "family", codes "IPv4") ∷ (codes "neigh", codes "52:54:00:00:00:0A") ∷ []);
}

abbrev arp : ArpUpdater
arp = record {
  db_conn = neigh_db ∷ [];
  neigh_key_list = (codes "NEIGH_TABLE:Ethernet0:10.0.0.1", 0) ∷ [];
  rows = no_rows;
}

abbrev arp' : ArpUpdater
arp' = record arp {
  rows = record {
    value_map = (1 ∷ 10 ∷ 0 ∷ 0 ∷ 1 ∷ [], 82 ∷ 84 ∷ 0 ∷ 0 ∷ 0 ∷ 10 ∷ []) ∷ [];
    sub_ids = (1 ∷ 10 ∷ 0 ∷ 0 ∷ 1 ∷ []) ∷ [];
  };
}

arp_run : Arp.update_data no_ipv6 ports [] arp ≡ (ok tt, arp')
unfolding Arp.update_data then_sort for_each with_result item_at or_empty get_neigh_info split_at
    mac_decimals ip2byte_tuple sort_rows add_row sorted no_rows
arp_run = refl

arp-IsLawful_example :
    IsLawful (ip_net_to_media_phys_address arp' (1 ∷ 2 ∷ []) 2) (λ k. In k arp'.rows.sub_ids)
arp-IsLawful_example = arp-IsLawful no_ipv6 ports [] arp arp' (1 ∷ 2 ∷ []) 2 arp_run
