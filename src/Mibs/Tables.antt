-- ===== src/Mibs/Tables.antt =====
-- The functions of src/sonic_ax_impl/mibs/__init__.py that read the interface tables of one
-- namespace, and their merge over all namespaces.
pub mod Lags
pub mod Queues
pub mod Mgmt
use sonic_snmpagent.Prelude.{
  ℕ, zero, suc, List, [], ◌∷◌, ◌++◌, length, drop, Option, none, some, Result, ok, err, value_error,
  type_error, attribute_error, ◌>>=◌, Bool, true, false, ◌||◌, ◌==◌, ltb, if◌then◌else◌, map,
}
use sonic_snmpagent.Dict.{Dict, Eq, set, update, find, keys, nat_eq, list_eq}
use sonic_snmpagent.Strings.{Text, codes, contains}
use sonic_snmpagent.Mibs.Keys.{
  appl_db, config_db, counters_db, get_sai_id_key, if_entry_table, mgmt_if_entry_table,
}
use sonic_snmpagent.Mibs.Namespace.{
  DbConn, or_empty, get_sync_d_from_all_namespace, get_non_host_dbs,
}
use sonic_snmpagent.Mibs.PortUtil.{PortUtil}

-- One component of the tuples that `get_sync_d_from_all_namespace` merges. If there is no
-- namespace, there is nothing to unpack, which raises ValueError.
unfoldable pub only_one {ℓ} : {A : Type ℓ} → List A → Result A
only_one [] = err value_error
only_one (a ∷ more) = ok a

unfoldable pub merged {ℓ κ μ} :
    {K : Type ℓ} {V : Type κ} {A : Type μ} ⦃e : Eq K⦄
    → (DbConn → Result A)
    → (A → Dict K V)
    → List DbConn
    → Result (Dict K V)
unfolding only_one get_sync_d_from_all_namespace
merged per_namespace_func component dbs = do
  result_list ← get_sync_d_from_all_namespace per_namespace_func component dbs
  only_one result_list

-- `if_entry.get('alias', if_name)`; `None` has no `get`.
unfoldable pub alias_of : Text → Option (Dict Text Text) → Result Text
alias_of if_name none = err attribute_error
alias_of if_name (some if_entry) = elim (find (codes "alias") if_entry) [
  | none ↦ ok if_name
  | some alias ↦ ok alias
]

unfoldable pub alias_map_of :
    (Text → Option (Dict Text Text)) → List Text → Dict Text Text → Result (Dict Text Text)
unfolding alias_of
alias_map_of entry [] if_alias_map = ok if_alias_map
alias_map_of entry (if_name ∷ if_names) if_alias_map = do
  alias ← alias_of if_name (entry if_name)
  alias_map_of entry if_names (set if_name alias if_alias_map)

-- The tuple that `init_sync_d_interface_tables` returns.
pub record InterfaceTables : Type 0 where
  pub if_name_map : Dict Text Text
  pub if_alias_map : Dict Text Text
  pub if_id_map : Dict Text Text
  pub oid_name_map : Dict ℕ Text

-- The tuple that `init_sync_d_vlan_tables` returns.
pub record VlanTables : Type 0 where
  pub vlan_name_map : Dict Text Text
  pub oid_sai_map : Dict ℕ Text
  pub oid_name_map : Dict ℕ Text

module _ (port_util : PortUtil) where
  unfoldable pub is_sonic_name : Text → Bool
  is_sonic_name if_name =
      port_util.matches_ethernet if_name
      || (port_util.matches_ethernet_bp if_name
          || (port_util.matches_ethernet_ib if_name || port_util.matches_ethernet_rec if_name))

  -- `if_name_map`
  unfoldable pub name_map_of : Dict Text Text → Dict Text Text → Dict Text Text
  unfolding is_sonic_name
  name_map_of [] if_name_map = if_name_map
  name_map_of ((if_name, sai_id) ∷ items) if_name_map =
      name_map_of items
        (if is_sonic_name if_name then set if_name sai_id if_name_map else if_name_map)

  -- `if_id_map`
  unfoldable pub id_map_of : Text → Dict Text Text → Dict Text Text → Dict Text Text
  unfolding is_sonic_name
  id_map_of namespace [] if_id_map = if_id_map
  id_map_of namespace ((sai_id, if_name) ∷ items) if_id_map = id_map_of namespace items (
      if is_sonic_name if_name
      then set (get_sai_id_key namespace sai_id) if_name if_id_map
      else if_id_map)

  -- `oid_name_map`: the names that have an index.
  unfoldable pub oid_map_of : List Text → Dict ℕ Text → Dict ℕ Text
  oid_map_of [] oid_name_map = oid_name_map
  oid_map_of (if_name ∷ if_names) oid_name_map =
      oid_map_of if_names (elim (port_util.get_index_from_str if_name) [
        | none ↦ oid_name_map
        | some index ↦ set index if_name oid_name_map
      ])

  -- Without a port that has an index all four maps are empty.
  unfoldable pub interface_tables :
      DbConn → Dict Text Text → Dict Text Text → Dict ℕ Text → Result InterfaceTables
  unfolding alias_map_of
  interface_tables db_conn if_name_map if_id_map [] =
      ok (record { if_name_map = []; if_alias_map = []; if_id_map = []; oid_name_map = [] })
  interface_tables db_conn if_name_map if_id_map (first ∷ oid_name_map) = do
    if_alias_map ←
        alias_map_of (λ if_name. db_conn.get_all appl_db (if_entry_table if_name))
          (keys if_name_map) []
    ok (record {
      if_name_map = if_name_map;
      if_alias_map = if_alias_map;
      if_id_map = if_id_map;
      oid_name_map = first ∷ oid_name_map;
    })

  unfoldable pub init_sync_d_interface_tables : DbConn → Result InterfaceTables
  unfolding interface_tables
  init_sync_d_interface_tables db_conn =
      let (if_name_map_util, if_id_map_util) = port_util.get_interface_oid_map db_conn in
      let if_name_map = name_map_of if_name_map_util [] in
      interface_tables db_conn if_name_map (id_map_of db_conn.namespace if_id_map_util [])
        (oid_map_of (keys if_name_map) [])

  unfoldable pub rif_map_of : Text → Dict Text Text → Dict Text Text → Dict Text Text
  rif_map_of namespace [] rif_port_map = rif_port_map
  rif_map_of namespace ((rif, port) ∷ items) rif_port_map =
      rif_map_of namespace items
        (set (get_sai_id_key namespace rif) (get_sai_id_key namespace port) rif_port_map)

  -- `{port: rif for rif, port in rif_port_map.items()}`
  unfoldable pub inverse_of : Dict Text Text → Dict Text Text → Dict Text Text
  inverse_of [] port_rif_map = port_rif_map
  inverse_of ((rif, port) ∷ items) port_rif_map = inverse_of items (set port rif port_rif_map)

  unfoldable pub init_sync_d_rif_tables : DbConn → Dict Text Text × Dict Text Text
  unfolding rif_map_of inverse_of
  init_sync_d_rif_tables db_conn =
      let rif_port_map = rif_map_of db_conn.namespace (port_util.get_rif_port_map db_conn) [] in
      (rif_port_map, inverse_of rif_port_map [])

  -- `if not port_index: continue`
  unfoldable pub index_of : Text → Option ℕ
  index_of if_name = elim (port_util.get_index_from_str if_name) [
    | none ↦ none
    | some index ↦ if index == 0 then none else some index
  ]

  unfoldable pub vlan_maps_of :
      Dict Text Text → Dict ℕ Text × Dict ℕ Text → Dict ℕ Text × Dict ℕ Text
  unfolding index_of
  vlan_maps_of [] maps = maps
  vlan_maps_of ((sai_id, if_name) ∷ items) (oid_sai_map, oid_name_map) =
      vlan_maps_of items (elim (index_of if_name) [
        | none ↦ (oid_sai_map, oid_name_map)
        | some port_index ↦ (set port_index sai_id oid_sai_map, set port_index if_name oid_name_map)
      ])

  unfoldable pub init_sync_d_vlan_tables : DbConn → VlanTables
  unfolding vlan_maps_of
  init_sync_d_vlan_tables db_conn =
      let vlan_name_map = port_util.get_vlan_interface_oid_map db_conn in
      let (oid_sai_map, oid_name_map) = vlan_maps_of vlan_name_map ([], []) in
      record {
        vlan_name_map = vlan_name_map;
        oid_sai_map = oid_sai_map;
        oid_name_map = oid_name_map;
      }
