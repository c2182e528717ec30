-- ===== src/Mibs/Interfaces/Handlers.antt =====
-- src/sonic_ax_impl/mibs/ietf/rfc1213.py: what InterfacesUpdater tells of an interface, and
-- sysNameUpdater.
use sonic_snmpagent.Prelude.{
  ℕ, zero, suc, ℤ, pos, negsuc, ◌*◌, List, [], ◌∷◌, length, Option, none, some, Result, ok, err,
  type_error, ◌>>=◌, Bool, true, false, ◌&&◌, ◌==◌, if◌then◌else◌,
}
use Prim.Native.Nat.{min}
use sonic_snmpagent.Dict.{Dict, ◌≟◌, find, item, contains, nat_eq, list_eq, option_eq}
use sonic_snmpagent.Strings.{Text, codes, to_int}
use sonic_snmpagent.Mibs.Keys.{
  appl_db, config_db, state_db, lag_entry_table, mgmt_if_entry_table, mgmt_if_entry_table_state_db,
  vlan_entry_table, if_entry_table,
}
use sonic_snmpagent.Mibs.Namespace.{DbConn, dbs_get_all, or_empty}
use sonic_snmpagent.Mibs.Interfaces.{InterfacesUpdater}
use sonic_snmpagent.Mibs.Interfaces.Counters.{get_oid, with_oid}

-- `n - 1`
unfoldable pub pred : ℕ → ℤ
pred zero = negsuc 0
pred (suc n) = pos n

-- `None - 1` raises TypeError.
unfoldable pub if_index_of : Option ℕ → Result (Option ℤ)
unfolding pred
if_index_of none = err type_error
if_index_of (some oid) = ok (some (pred oid))

unfoldable pub if_index : InterfacesUpdater → List ℕ → Result (Option ℤ)
unfolding if_index_of
if_index u [] = ok none
if_index u (x ∷ xs) = if_index_of (get_oid u (x ∷ xs))

unfoldable pub port_description : InterfacesUpdater → ℕ → Result Text
port_description u oid = do name ← item oid u.oid_name_map; item name u.if_alias_map

-- The name of a LAG, else the alias of a management port, else the name of a vlan, else the alias
-- of the port.
unfoldable pub description_of :
    InterfacesUpdater → ℕ → Option Text → Option Text → Option Text → Result Text
unfolding port_description
description_of u oid (some lag) mgmt vlan = ok lag
description_of u oid none (some mgmt) vlan = item mgmt u.mgmt_alias_map
description_of u oid none none (some vlan) = ok vlan
description_of u oid none none none = port_description u oid

unfoldable pub interface_description : InterfacesUpdater → List ℕ → Result (Option Text)
unfolding with_oid description_of
interface_description u sub_id = with_oid (get_oid u sub_id) (λ oid. do
  text ←
      description_of u oid (find oid u.oid_lag_name_map) (find (some oid) u.mgmt_oid_name_map)
        (find oid u.vlan_oid_name_map)
  ok (some text))

unfoldable pub get_if_number : InterfacesUpdater → ℕ
get_if_number u = length u.if_range

-- The database and the key of the entry of an interface.
unfoldable pub entry_place :
    Option Text → Option Text → Option Text → Option Text → Option (Text × Text)
entry_place (some lag) mgmt vlan port = some (appl_db, lag_entry_table lag)
entry_place none (some mgmt) vlan port = some (config_db, mgmt_if_entry_table mgmt)
entry_place none none (some vlan) port = some (appl_db, vlan_entry_table vlan)
entry_place none none none (some port) = some (appl_db, if_entry_table port)
entry_place none none none none = none

unfoldable pub place_of : InterfacesUpdater → Option ℕ → Option (Text × Text)
unfolding entry_place
place_of u none = none
place_of u (some oid) =
    if oid == 0
    then none
    else entry_place (find oid u.oid_lag_name_map) (find (some oid) u.mgmt_oid_name_map)
        (find oid u.vlan_oid_name_map) (find oid u.oid_name_map)

unfoldable pub state_place_of : InterfacesUpdater → Option ℕ → Option (Text × Text)
state_place_of u none = none
state_place_of u (some oid) =
    if oid == 0 then none else elim (find (some oid) u.mgmt_oid_name_map) [
      | none ↦ none
      | some name ↦ some (state_db, mgmt_if_entry_table_state_db name)
    ]

-- No entry is an empty one here: the callers ask only whether it has fields.
unfoldable pub entry_at : InterfacesUpdater → Option (Text × Text) → Dict Text Text
entry_at u none = []
entry_at u (some (db, if_table)) = dbs_get_all u.db_conn db if_table

unfoldable pub get_if_entry : InterfacesUpdater → List ℕ → Dict Text Text
unfolding entry_at place_of
get_if_entry u sub_id = entry_at u (place_of u (get_oid u sub_id))

unfoldable pub get_if_entry_state_db : InterfacesUpdater → List ℕ → Dict Text Text
unfolding entry_at state_place_of
get_if_entry_state_db u sub_id = entry_at u (state_place_of u (get_oid u sub_id))

abbrev pub status_map : Dict Text ℕ
status_map =
    (codes "up", 1)
    ∷ (codes "down", 2)
    ∷ (codes "testing", 3)
    ∷ (codes "unknown", 4)
    ∷ (codes "dormant", 5)
    ∷ (codes "notPresent", 6)
    ∷ (codes "lowerLayerDown", 7)
    ∷ []

unfoldable pub status_or_down : Option ℕ → ℕ
status_or_down none = 2
status_or_down (some n) = n

unfoldable pub or_down : Option Text → Text
or_down none = codes "down"
or_down (some state) = state

-- A missing state is `down`, as is an unknown one; no entry at all is `unknown`.
unfoldable pub status_of : Text → Dict Text Text → ℕ
unfolding status_or_down or_down
status_of key [] = 4
status_of key (field ∷ entry) =
    status_or_down (find (or_down (find key (field ∷ entry))) status_map)

unfoldable pub get_status : InterfacesUpdater → Text → List ℕ → ℕ
unfolding status_of get_if_entry get_if_entry_state_db
get_status u key sub_id =
    if contains (get_oid u sub_id) u.mgmt_oid_name_map && key ≟ codes "oper_status"
    then status_of key (get_if_entry_state_db u sub_id)
    else status_of key (get_if_entry u sub_id)

unfoldable pub get_admin_status : InterfacesUpdater → List ℕ → ℕ
unfolding get_status
get_admin_status u sub_id = get_status u (codes "admin_status") sub_id

unfoldable pub get_oper_status : InterfacesUpdater → List ℕ → ℕ
unfolding get_status
get_oper_status u sub_id = get_status u (codes "oper_status") sub_id

-- `int(entry.get(key, 0))` of an entry that has fields.
unfoldable pub number_in : Text → Dict Text Text → Result (Option ℕ)
number_in key [] = ok none
number_in key (field ∷ entry) = elim (find key (field ∷ entry)) [
  | none ↦ ok (some 0)
  | some text ↦ (do n ← to_int text; ok (some n))
]

unfoldable pub get_mtu : InterfacesUpdater → List ℕ → Result (Option ℕ)
unfolding number_in get_if_entry
get_mtu u sub_id = number_in (codes "mtu") (get_if_entry u sub_id)

abbrev pub rfc1213_max_speed : ℕ
rfc1213_max_speed = 4294967295

unfoldable pub speed_bps : Option ℕ → Option ℕ
speed_bps none = none
speed_bps (some speed) = some (min rfc1213_max_speed (speed * 1000000))

unfoldable pub get_speed_bps : InterfacesUpdater → List ℕ → Result (Option ℕ)
unfolding number_in get_if_entry speed_bps
get_speed_bps u sub_id = do
  speed ← number_in (codes "speed") (get_if_entry u sub_id)
  ok (speed_bps speed)

pub data IfTypes : Type 0 where
  ethernet_csmacd l3ipvlan ieee8023ad_lag : IfTypes

unfoldable pub if_type_code : IfTypes → ℕ
if_type_code ethernet_csmacd = 6
if_type_code l3ipvlan = 136
if_type_code ieee8023ad_lag = 161

unfoldable pub type_of : Bool → Bool → IfTypes
type_of true vlan = ieee8023ad_lag
type_of false true = l3ipvlan
type_of false false = ethernet_csmacd

unfoldable pub get_if_type : InterfacesUpdater → List ℕ → Result (Option ℕ)
unfolding with_oid type_of
get_if_type u sub_id = with_oid (get_oid u sub_id) (λ oid. ok (
    some (
      if_type_code (type_of (contains oid u.oid_lag_name_map) (contains oid u.vlan_oid_name_map)))))

-- sysNameUpdater: the name in the configuration, if it has one, replaces the host's.
unfoldable pub hostname_of : Text → Option Text → Text
hostname_of hostname none = hostname
hostname_of hostname (some []) = hostname
hostname_of hostname (some (c ∷ text)) = c ∷ text

unfoldable pub reinit_sys_name : DbConn → Text → Text
unfolding hostname_of or_empty
reinit_sys_name db_conn hostname = hostname_of hostname (
    find (codes "hostname")
      (or_empty (db_conn.get_all config_db (codes "DEVICE_METADATA|localhost"))))
