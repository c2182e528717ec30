-- ===== src/Mibs/IfMib/Handlers.antt =====
-- src/sonic_ax_impl/mibs/ietf/rfc2863.py: what InterfaceMIBUpdater tells of an interface.
use sonic_snmpagent.Prelude.{
  if◌then◌else◌, ℕ, ◌+◌, List, [], ◌∷◌, Option, none, some, Result, ok, ◌>>=◌,
}
use sonic_snmpagent.Dict.{Dict, find, item, nat_eq, list_eq, option_eq}
use sonic_snmpagent.Strings.{Text, codes, to_int}
use sonic_snmpagent.Mibs.PortUtil.{PortUtil}
use sonic_snmpagent.Mibs.Namespace.{dbs_get_all}
use sonic_snmpagent.Mibs.Interfaces.Counters.{in_range, head_of, with_oid}
use sonic_snmpagent.Mibs.Interfaces.Handlers.{entry_place}
use sonic_snmpagent.Mibs.IfMib.{InterfaceMibUpdater, get_counter}

unfoldable pub get_oid : InterfaceMibUpdater → List ℕ → Option ℕ
unfolding in_range head_of
get_oid u sub_id = if in_range sub_id u.if_range then head_of sub_id else none

unfoldable pub name_of :
    InterfaceMibUpdater → ℕ → Option Text → Option Text → Option Text → Result Text
name_of u oid (some lag) mgmt vlan = ok lag
name_of u oid none (some mgmt) vlan = item mgmt u.mgmt_alias_map
name_of u oid none none (some vlan) = ok vlan
name_of u oid none none none = do name ← item oid u.oid_name_map; item name u.if_alias_map

unfoldable pub interface_name : InterfaceMibUpdater → List ℕ → Result (Option Text)
unfolding get_oid with_oid name_of
interface_name u sub_id = with_oid (get_oid u sub_id) (λ oid. do
  text ←
      name_of u oid (find oid u.oid_lag_name_map) (find (some oid) u.mgmt_oid_name_map)
        (find oid u.vlan_oid_name_map)
  ok (some text))

-- The maps by a number that may be `None`, which none of them has as a key but that of the
-- management ports.
unfoldable pub by_index : Dict ℕ Text → Option ℕ → Option Text
by_index d none = none
by_index d (some oid) = find oid d

-- `_get_if_entry`, where no entry is an empty one.
unfoldable pub entry_at : InterfaceMibUpdater → Option (Text × Text) → Dict Text Text
entry_at u none = []
entry_at u (some (db, if_table)) = dbs_get_all u.db_conn db if_table

unfoldable pub get_if_entry : InterfaceMibUpdater → Option ℕ → Dict Text Text
unfolding entry_at by_index
get_if_entry u oid = entry_at u (
    entry_place (by_index u.oid_lag_name_map oid) (find oid u.mgmt_oid_name_map)
      (by_index u.vlan_oid_name_map oid) (by_index u.oid_name_map oid))

-- `entry.get(key, default)` of an entry that has fields.
unfoldable pub field_of : Text → Text → Dict Text Text → Option Text
field_of key default [] = none
field_of key default (field ∷ entry) = elim (find key (field ∷ entry)) [
  | none ↦ some default
  | some text ↦ some text
]

unfoldable pub interface_alias : InterfaceMibUpdater → List ℕ → Result (Option Text)
unfolding get_oid with_oid get_if_entry field_of
interface_alias u sub_id =
    with_oid (get_oid u sub_id)
      (λ oid. ok (field_of (codes "description") [] (get_if_entry u (some oid))))

unfoldable pub number_or : Text → Result (Option ℕ)
number_or text = do n ← to_int text; ok (some n)

unfoldable pub speed_of : Option Text → Result (Option ℕ)
unfolding number_or
speed_of none = ok none
speed_of (some text) = number_or text

-- A port of a LAG without an entry adds nothing.
unfoldable pub add_speed : ℕ → Option ℕ → ℕ
add_speed total none = total
add_speed total (some speed) = total + speed

module _ (port_util : PortUtil) where
  unfoldable pub get_counter32 : InterfaceMibUpdater → Text → List ℕ → Result (Option ℕ)
  unfolding get_oid with_oid
  get_counter32 u table_name sub_id =
      with_oid (get_oid u sub_id) (λ oid. get_counter port_util u 32 table_name 2 (some oid))

  unfoldable pub get_counter64 : InterfaceMibUpdater → Text → List ℕ → Result (Option ℕ)
  unfolding get_oid with_oid
  get_counter64 u table_name sub_id =
      with_oid (get_oid u sub_id) (λ oid. get_counter port_util u 64 table_name 2 (some oid))

  unfoldable pub sum_speeds : InterfaceMibUpdater → List Text → ℕ → Result ℕ
  unfolding get_if_entry field_of speed_of add_speed
  sum_speeds u [] total = ok total
  sum_speeds u (lag_member ∷ members) total = do
    speed ← speed_of (
        field_of (codes "speed") (codes "0")
          (get_if_entry u (port_util.get_index_from_str lag_member)))
    sum_speeds u members (add_speed total speed)

  unfoldable pub high_speed_of : InterfaceMibUpdater → ℕ → Option Text → Result (Option ℕ)
  unfolding sum_speeds get_if_entry field_of speed_of
  high_speed_of u oid none =
      speed_of (field_of (codes "speed") (codes "40000") (get_if_entry u (some oid)))
  high_speed_of u oid (some lag_name) = do
    members ← item lag_name u.lag_name_if_name_map
    speed ← sum_speeds u members 0
    ok (some speed)

  unfoldable pub get_high_speed : InterfaceMibUpdater → List ℕ → Result (Option ℕ)
  unfolding get_oid with_oid high_speed_of
  get_high_speed u sub_id =
      with_oid (get_oid u sub_id) (λ oid. high_speed_of u oid (find oid u.oid_lag_name_map))
