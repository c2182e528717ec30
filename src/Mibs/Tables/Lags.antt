-- ===== src/Mibs/Tables/Lags.antt =====
-- The LAG tables of src/sonic_ax_impl/mibs/__init__.py.
use sonic_snmpagent.Prelude.{
  ℕ, List, [], ◌∷◌, ◌++◌, length, drop, map, Option, none, some, Result, ok, err, attribute_error,
  if◌then◌else◌,
}
use sonic_snmpagent.Dict.{Dict, set, keys, nat_eq, list_eq}
use sonic_snmpagent.Strings.{Text, codes, contains}
use sonic_snmpagent.Mibs.Keys.{appl_db, counters_db, get_sai_id_key}
use sonic_snmpagent.Mibs.Namespace.{DbConn, or_empty}
use sonic_snmpagent.Mibs.PortUtil.{PortUtil}
use sonic_snmpagent.Mibs.Tables.{index_of}

-- The tuple that `init_sync_d_lag_tables` returns.
pub record LagTables : Type 0 where
  pub lag_name_if_name_map : Dict Text (List Text)
  pub if_name_lag_name_map : Dict Text Text
  pub oid_lag_name_map : Dict ℕ Text
  pub lag_sai_map : Dict Text Text
  pub sai_lag_map : Dict Text Text

abbrev no_lags : LagTables
no_lags = record {
  lag_name_if_name_map = [];
  if_name_lag_name_map = [];
  oid_lag_name_map = [];
  lag_sai_map = [];
  sai_lag_map = [];
}

-- `text.lstrip("oid:0x")` takes off all leading characters that occur in the argument.
unfoldable pub lstrip : Text → Text → Text
lstrip chars [] = []
lstrip chars (c ∷ text) =
    let rest = lstrip chars text in if contains c chars then rest else c ∷ text

-- The loop over the names of the LAGs: `lag_sai_map` and `sai_lag_map`.
unfoldable pub lag_ids_of :
    Text → Dict Text Text → Dict Text Text × Dict Text Text → Dict Text Text × Dict Text Text
unfolding lstrip
lag_ids_of namespace [] maps = maps
lag_ids_of namespace ((name, sai_id) ∷ items) (lag_sai_map, sai_lag_map) =
    let sai_id_key = get_sai_id_key namespace (lstrip (codes "oid:0x") sai_id) in
    lag_ids_of namespace items (set name sai_id_key lag_sai_map, set sai_id_key name sai_lag_map)

-- `if_name_lag_name_map` for the members of one LAG.
unfoldable pub members_of : Text → List Text → Dict Text Text → Dict Text Text
members_of lag_name [] if_name_lag_name_map = if_name_lag_name_map
members_of lag_name (lag_member_name ∷ lag_member_names) if_name_lag_name_map =
    members_of lag_name lag_member_names (set lag_member_name lag_name if_name_lag_name_map)

-- The loop over the entries of the LAG table.
unfoldable pub lag_names_of :
    DbConn
    → List Text
    → Dict Text (List Text) × Dict Text Text
    → Dict Text (List Text) × Dict Text Text
unfolding or_empty members_of
lag_names_of db_conn [] maps = maps
lag_names_of db_conn (lag_entry ∷ lag_entries) (lag_name_if_name_map, if_name_lag_name_map) =
    let lag_name = drop (length (codes "LAG_TABLE:")) lag_entry in
    let start = codes "LAG_MEMBER_TABLE:" ++ (lag_name ++ codes ":") in
    let lag_members = or_empty (db_conn.keys appl_db (start ++ codes "*")) in
    let lag_member_names = map (drop (length start)) lag_members in
    lag_names_of db_conn lag_entries (
      set lag_name lag_member_names lag_name_if_name_map,
      members_of lag_name lag_member_names if_name_lag_name_map,
    )

module _ (port_util : PortUtil) where
  unfoldable pub lag_oids_of : List Text → Dict ℕ Text → Dict ℕ Text
  unfolding index_of
  lag_oids_of [] oid_lag_name_map = oid_lag_name_map
  lag_oids_of (if_name ∷ if_names) oid_lag_name_map =
      lag_oids_of if_names (elim (index_of port_util if_name) [
        | none ↦ oid_lag_name_map
        | some idx ↦ set idx if_name oid_lag_name_map
      ])

  unfoldable pub lag_tables : DbConn → List Text → Option (Dict Text Text) → Result LagTables
  unfolding lag_ids_of lag_names_of lag_oids_of
  lag_tables db_conn lag_entries none = err attribute_error
  lag_tables db_conn lag_entries (some names) =
      let (lag_sai_map, sai_lag_map) = lag_ids_of db_conn.namespace names (names, []) in
      let (lag_name_if_name_map, if_name_lag_name_map) =
        lag_names_of db_conn lag_entries ([], []) in
      ok (record {
        lag_name_if_name_map = lag_name_if_name_map;
        if_name_lag_name_map = if_name_lag_name_map;
        oid_lag_name_map = lag_oids_of (keys lag_name_if_name_map) [];
        lag_sai_map = lag_sai_map;
        sai_lag_map = sai_lag_map;
      })

  unfoldable pub init_sync_d_lag_tables : DbConn → Result LagTables
  unfolding lag_tables or_empty
  init_sync_d_lag_tables db_conn = elim (or_empty (db_conn.keys appl_db (codes "LAG_TABLE:*"))) [
    | [] ↦ ok no_lags
    | entry ∷ entries ↦
        lag_tables db_conn (entry ∷ entries)
          (db_conn.get_all counters_db (codes "COUNTERS_LAG_NAME_MAP"))
  ]
