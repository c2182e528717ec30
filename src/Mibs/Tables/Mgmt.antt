-- ===== src/Mibs/Tables/Mgmt.antt =====
-- The management ports of src/sonic_ax_impl/mibs/__init__.py.
use sonic_snmpagent.Prelude.{
  ℕ, List, [], ◌∷◌, length, drop, Option, none, some, Result, ok, ◌>>=◌, if◌then◌else◌,
}
use sonic_snmpagent.Dict.{Dict, set, option_eq}
use sonic_snmpagent.Strings.{Text, codes, starts_with}
use sonic_snmpagent.Mibs.Keys.{config_db, mgmt_if_entry_table}
use sonic_snmpagent.Mibs.Namespace.{DbConn, or_empty}
use sonic_snmpagent.Mibs.PortUtil.{PortUtil}
use sonic_snmpagent.Mibs.Tables.{alias_map_of}

-- What follows the last occurrence of `sep`. The separator does not overlap itself.
unfoldable pub behind_last : Text → Text → Option Text
behind_last sep [] = none
behind_last sep (c ∷ text) =
    let later = behind_last sep text in
    elim later [
      | none ↦ if starts_with sep (c ∷ text) then some (drop (length sep) (c ∷ text)) else none
      | some rest ↦ some rest
    ]

-- `key.split(sep)[-1]`
unfoldable pub last_of_split : Text → Text → Text
unfolding behind_last
last_of_split sep key = elim (behind_last sep key) [ none ↦ key | some rest ↦ rest ]

-- `d.values()`
unfoldable pub values : Dict (Option ℕ) Text → List Text
values [] = []
values ((k, v) ∷ d) = v ∷ values d

module _ (port_util : PortUtil) where
  unfoldable pub mgmt_ports_of : List Text → Dict (Option ℕ) Text → Dict (Option ℕ) Text
  unfolding last_of_split
  mgmt_ports_of [] oid_name_map = oid_name_map
  mgmt_ports_of (key ∷ mgmt_ports_keys) oid_name_map =
      let mgmt_name = last_of_split (mgmt_if_entry_table []) key in
      mgmt_ports_of mgmt_ports_keys
        (set (port_util.get_index_from_str mgmt_name) mgmt_name oid_name_map)

  unfoldable pub init_mgmt_interface_tables :
      DbConn → Result (Dict (Option ℕ) Text × Dict Text Text)
  unfolding or_empty mgmt_ports_of values
  init_mgmt_interface_tables db_conn =
      let oid_name_map =
        mgmt_ports_of (or_empty (db_conn.keys config_db (mgmt_if_entry_table (codes "*")))) [] in
      (do
        if_alias_map ←
            alias_map_of (λ if_name. db_conn.get_all config_db (mgmt_if_entry_table if_name))
              (values oid_name_map) []
        ok (oid_name_map, if_alias_map))
