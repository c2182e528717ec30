-- ===== src/Mibs/Route.antt =====
-- src/sonic_ax_impl/mibs/ietf/rfc4292.py: the default routes.
pub mod Table
use sonic_snmpagent.Prelude.{
  ℕ, List, [], ◌∷◌, ◌++◌, drop, length, Option, none, some, Result, ok, err, ◌>>=◌, pos, Bool, true,
  false, ◌&&◌, ◌||◌, if◌then◌else◌,
}
use sonic_snmpagent.Constants.{integer, ip_address}
use sonic_snmpagent.Encodings.Value.{Data, int, bytes}
use sonic_snmpagent.Util.Ip
use sonic_snmpagent.Util.Ip.{IpAddress, ipv4, ipv6, packed, ip2byte_tuple}
use sonic_snmpagent.Dict.{Dict, ◌≟◌, find, set, list_eq}
use sonic_snmpagent.Strings.{Text, codes, split_at, slash, comma}
use sonic_snmpagent.Mib.Entry.{MibEntry, subtree}
use sonic_snmpagent.Mibs.Keys.{appl_db}
use sonic_snmpagent.Mibs.Namespace.{DbConn, dbs_keys, get_non_host_dbs}
use sonic_snmpagent.Mibs.Values.{int_data, bytes_data}
use sonic_snmpagent.Mibs.Rows.{Rows, no_rows, add_row, value_of, next_sub_id}
use sonic_snmpagent.Mibs.Effect.{and_then, with_result, for_each}
use sonic_snmpagent.Mibs.Rows.Steps.{Step, then_sort}

-- The module multi_asic of sonic_py_common: the front end namespaces, the ports of a namespace, and
-- the port channels that are internal to it.
pub record MultiAsic : Type 0 where
  pub front_ns : List Text
  pub get_port_table_for_asic : Text → Dict Text (Dict Text Text)
  pub is_port_channel_internal : Text → Text → Bool
  pub port_role : Text
  pub internal_port : Text

-- `rows` holds `route_dest_map` and `route_dest_list`. The values are packed addresses.
pub record RouteUpdater : Type 0 where
  pub tos : ℕ
  pub db_conn : List DbConn
  pub loips : Dict Text (List ℕ)
  pub rows : Rows (List ℕ)

unfoldable pub init : List DbConn → RouteUpdater
init db_conn = record { tos = 0; db_conn = db_conn; loips = []; rows = no_rows }

abbrev zeros : List ℕ
zeros = 0 ∷ 0 ∷ 0 ∷ 0 ∷ []

abbrev ones : List ℕ
ones = 255 ∷ 255 ∷ 255 ∷ 255 ∷ []

-- `loipmask.split('/')[0]`
unfoldable pub first_part : List Text → Text
first_part [] = []
first_part (part ∷ parts) = part

-- Only the IPv4 addresses of the loopback are collected.
unfoldable pub add_loip : Text → IpAddress → Dict Text (List ℕ) → Dict Text (List ℕ)
add_loip loip (ipv4 bs) loips = set loip bs loips
add_loip loip (ipv6 bs) loips = loips

-- `x in list`
unfoldable pub is_in : Text → List Text → Bool
is_in x [] = false
is_in x (y ∷ ys) = x ≟ y || is_in x ys

-- `zip(xs, ys)`
unfoldable pub zip : List Text → List Text → List (Text × Text)
zip [] ys = []
zip (x ∷ xs) [] = []
zip (x ∷ xs) (y ∷ ys) = (x, y) ∷ zip xs ys

module _ (parse_ipv6 : Text → Option (List ℕ)) (multi_asic : MultiAsic) where
  -- The loop of `reinit_data`; an invalid address leaves it with those before it.
  unfoldable pub add_loopbacks :
      List Text → Dict Text (List ℕ) → Result (Unit {0}) × Dict Text (List ℕ)
  unfolding first_part add_loip
  add_loopbacks [] loips = (ok tt, loips)
  add_loopbacks (loopback ∷ loopbacks) loips =
      let loipmask = drop (length (codes "INTF_TABLE:lo:")) loopback in
      let loip = first_part (split_at slash loipmask) in
      elim (Ip.ip_address parse_ipv6 loip) [
        | err e ↦ (err e, loips)
        | ok ipa ↦ add_loopbacks loopbacks (add_loip loip ipa loips)
      ]

  unfoldable pub reinit_data : RouteUpdater → Result (Unit {0}) × RouteUpdater
  unfolding add_loopbacks
  reinit_data u =
      let (raised, loips) =
        add_loopbacks (dbs_keys u.db_conn appl_db (codes "INTF_TABLE:lo:*")) [] in
      (raised, record u { loips = loips })

  -- The next hop of a loopback is all zero.
  unfoldable pub add_loopback_route : ℕ → Text × List ℕ → Rows (List ℕ) → Step (List ℕ)
  add_loopback_route tos (loip, ipa) r =
      with_result (ip2byte_tuple parse_ipv6 loip) r
        (λ ip. (ok tt, add_row (ip ++ (ones ++ (tos ∷ zeros))) ipa r))

  unfoldable pub is_internal_port : Text → Dict Text (Dict Text Text) → Bool
  is_internal_port ifn port_table = elim (find ifn port_table) [
    | none ↦ false
    | some port ↦ elim (find multi_asic.port_role port) [
      | none ↦ false
      | some role ↦ role ≟ multi_asic.internal_port
    ]
  ]

  -- Interfaces that are not on the front panel, and those inside the device.
  unfoldable pub is_ignored : Text → Text → Bool
  unfolding is_internal_port is_in
  is_ignored namespace ifn =
      is_in ifn (codes "eth0" ∷ codes "lo" ∷ codes "docker0" ∷ [])
      || (multi_asic.is_port_channel_internal ifn namespace
          || is_internal_port ifn (multi_asic.get_port_table_for_asic namespace))

  unfoldable pub add_nexthop : ℕ → Text → Text × Text → Rows (List ℕ) → Step (List ℕ)
  unfolding is_ignored
  add_nexthop tos namespace (nh, ifn) r =
      if is_ignored namespace ifn
      then (ok tt, r)
      else with_result (ip2byte_tuple parse_ipv6 nh) r
          (λ ip. (ok tt, add_row (zeros ++ (zeros ++ (tos ∷ ip))) zeros r))

  unfoldable pub add_nexthops : ℕ → Text → Option Text → Option Text → Rows (List ℕ) → Step (List ℕ)
  unfolding add_nexthop zip
  add_nexthops tos namespace none ifnames r = (ok tt, r)
  add_nexthops tos namespace (some nexthops) none r = (ok tt, r)
  add_nexthops tos namespace (some nexthops) (some ifnames) r =
      for_each (λ hop. add_nexthop tos namespace hop)
        (zip (split_at comma nexthops) (split_at comma ifnames)) r

  unfoldable pub add_entry : ℕ → Text → Option (Dict Text Text) → Rows (List ℕ) → Step (List ℕ)
  unfolding add_nexthops
  add_entry tos namespace none r = (ok tt, r)
  add_entry tos namespace (some ent) r =
      add_nexthops tos namespace (find (codes "nexthop") ent) (find (codes "ifname") ent) r

  -- `front_ns and db_conn.namespace not in front_ns`
  unfoldable pub is_back : List Text → Text → Bool
  unfolding is_in
  is_back [] namespace = false
  is_back (front ∷ more) namespace = if is_in namespace (front ∷ more) then false else true

  unfoldable pub add_routes : ℕ → DbConn → Rows (List ℕ) → Step (List ℕ)
  unfolding is_back add_entry
  add_routes tos db_conn r =
      if is_back multi_asic.front_ns db_conn.namespace
      then (ok tt, r)
      else add_entry tos db_conn.namespace (db_conn.get_all appl_db (codes "ROUTE_TABLE:0.0.0.0/0"))
          r

  unfoldable pub update_rows : RouteUpdater → Step (List ℕ)
  unfolding add_loopback_route add_routes
  update_rows u = then_sort (
      and_then (for_each (add_loopback_route u.tos) u.loips no_rows)
        (λ r. for_each (add_routes u.tos) (get_non_host_dbs u.db_conn) r))

  unfoldable pub update_data : RouteUpdater → Result (Unit {0}) × RouteUpdater
  unfolding update_rows
  update_data u = let (raised, rows) = update_rows u in (raised, record u { rows = rows })

unfoldable pub route_dest : RouteUpdater → List ℕ → Option (List ℕ)
route_dest u sub_id = value_of u.rows sub_id

-- `1` if there is a row
unfoldable pub active : Option (List ℕ) → Option ℕ
active none = none
active (some dest) = some 1

unfoldable pub route_status : RouteUpdater → List ℕ → Option ℕ
unfolding active
route_status u sub_id = active (value_of u.rows sub_id)

unfoldable pub ip_cidr_route_dest : RouteUpdater → List ℕ → ℕ → MibEntry
unfolding bytes_data
ip_cidr_route_dest u prefix prefixlen = record {
  value_type = ip_address;
  subtree = 1 ∷ 1 ∷ [];
  prefix = prefix;
  prefixlen = prefixlen;
  handler = subtree (next_sub_id u.rows.sub_ids) (λ sub_id. bytes_data (route_dest u sub_id));
}

unfoldable pub ip_cidr_route_status : RouteUpdater → List ℕ → ℕ → MibEntry
ip_cidr_route_status u prefix prefixlen = record {
  value_type = integer;
  subtree = 1 ∷ 16 ∷ [];
  prefix = prefix;
  prefixlen = prefixlen;
  handler = subtree (next_sub_id u.rows.sub_ids) (λ sub_id. int_data (route_status u sub_id));
}
