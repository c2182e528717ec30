-- ===== src/Mibs/Fdb.antt =====
-- src/sonic_ax_impl/mibs/ietf/rfc4363.py: the forwarding database.
pub mod Table
use sonic_snmpagent.Prelude.{
  ℕ, List, [], ◌∷◌, ◌++◌, drop, Option, none, some, Result, ok, err, key_error, ◌>>=◌, pos, Bool,
  true, false, ◌||◌, if◌then◌else◌,
}
use sonic_snmpagent.Constants.{integer}
use sonic_snmpagent.Encodings.Value.{Data, int}
use sonic_snmpagent.Util.Mac.{mac_decimals}
use sonic_snmpagent.Dict.{Dict, Eq, find, item, set, ◌≟◌, list_eq}
use sonic_snmpagent.Strings.{Text, codes, colon, last_part, to_int}
use sonic_snmpagent.Mib.Entry.{MibEntry, subtree}
use sonic_snmpagent.Mibs.Effect.{with_result}
use sonic_snmpagent.Mibs.Tables.{merged, init_sync_d_interface_tables}
use sonic_snmpagent.Mibs.Tables.Lags.{init_sync_d_lag_tables}
use sonic_snmpagent.Mibs.Keys.{asic_db}
use sonic_snmpagent.Mibs.Namespace.{
  DbConn, dbs_get_bridge_port_map, dbs_keys, dbs_get_all, get_non_host_dbs,
}
use sonic_snmpagent.Mibs.PortUtil.{PortUtil}
use sonic_snmpagent.Mibs.Values.{int_data}
use sonic_snmpagent.Mibs.Rows.{Rows, no_rows, add_row, sort_rows, value_of, flatten, next_sub_id}
use sonic_snmpagent.Mibs.Tables.{merged, init_sync_d_interface_tables}
use sonic_snmpagent.Mibs.Tables.Lags.{init_sync_d_lag_tables}

-- The attributes that the rows depend on. `rows` holds `vlanmac_ifindex_map`, whose values may be
-- `None`, and `vlanmac_ifindex_list`.
pub record FdbUpdater : Type 0 where
  pub db_conn : List DbConn
  pub if_id_map : Dict Text Text
  pub sai_lag_map : Dict Text Text
  pub if_bpid_map : Dict Text Text
  pub bvid_vlan_map : Dict Text Text
  pub broken_fdbs : List Text
  pub rows : Rows (Option ℕ)

unfoldable pub init : List DbConn → FdbUpdater
init db_conn = record {
  db_conn = db_conn;
  if_id_map = [];
  sai_lag_map = [];
  if_bpid_map = [];
  bvid_vlan_map = [];
  broken_fdbs = [];
  rows = no_rows;
}

-- A map that cannot be read leaves those that were assigned before it.
unfoldable pub with_lags : PortUtil → FdbUpdater → Dict Text Text → Result (Unit {0}) × FdbUpdater
with_lags port_util u sai_lag_map = (
  ok tt,
  record u {
    sai_lag_map = sai_lag_map;
    if_bpid_map = dbs_get_bridge_port_map port_util.get_bridge_port_map u.db_conn;
    bvid_vlan_map = [];
    broken_fdbs = [];
  },
)

unfoldable pub reinit_data : PortUtil → FdbUpdater → Result (Unit {0}) × FdbUpdater
unfolding with_lags merged
reinit_data port_util u =
    with_result (merged (init_sync_d_interface_tables port_util) (λ t. t.if_id_map) u.db_conn) u
      (λ if_id_map.
        let u' = record u { if_id_map = if_id_map } in
        with_result (merged (init_sync_d_lag_tables port_util) (λ t. t.sai_lag_map) u'.db_conn) u'
          (with_lags port_util u'))

-- A method returns, or raises, and leaves the object in a state.
abbrev pub Outcome : Type 0 → Type 0
Outcome A = Result A × FdbUpdater

-- `(int(vlan_id),) + mac_decimals(fdb["mac"])`
unfoldable pub vlanmac_of : Dict Text Text → Text → Result (List ℕ)
vlanmac_of fdb vlan_id = do
  vlan ← to_int vlan_id
  mac ← item (codes "mac") fdb
  decimals ← mac_decimals mac
  ok (vlan ∷ decimals)

unfoldable pub vlanmac_if : Dict Text Text → Option Text → Result (Option (List ℕ))
unfolding vlanmac_of
vlanmac_if fdb none = ok none
vlanmac_if fdb (some vlan_id) = do vlanmac ← vlanmac_of fdb vlan_id; ok (some vlanmac)

-- A vlan id is cached only if there is one.
unfoldable pub cache_vlan : Text → Option Text → FdbUpdater → FdbUpdater
cache_vlan bvid none u = u
cache_vlan bvid (some vlan_id) u = record u { bvid_vlan_map = set bvid vlan_id u.bvid_vlan_map }

-- The loop of `Namespace.dbs_get_vlan_id_from_bvid`
unfoldable pub vlan_id_from : PortUtil → List DbConn → Text → Option Text
vlan_id_from port_util [] bvid = none
vlan_id_from port_util (db_conn ∷ dbs) bvid =
    let later = vlan_id_from port_util dbs bvid in
    elim (db_conn.keys asic_db (codes "ASIC_STATE:SAI_OBJECT_TYPE_VLAN:" ++ bvid)) [
      | none ↦ later
      | some vlan_obj ↦ port_util.get_vlan_id_from_bvid db_conn bvid
    ]

unfoldable pub dbs_get_vlan_id_from_bvid : PortUtil → List DbConn → Text → Option Text
unfolding vlan_id_from get_non_host_dbs
dbs_get_vlan_id_from_bvid port_util dbs bvid = vlan_id_from port_util (get_non_host_dbs dbs) bvid

-- `json.loads`, with `none` for ValueError. An entry of the table is an object of strings.
module _ (loads : Text → Option (Dict Text Text)) (port_util : PortUtil) where
  -- The vlan of a bridge, cached or from the database.
  unfoldable pub by_bvid :
      Dict Text Text → FdbUpdater → Text → Option Text → Outcome (Option (List ℕ))
  unfolding vlanmac_if cache_vlan dbs_get_vlan_id_from_bvid
  by_bvid fdb u bvid (some vlan_id) = (vlanmac_if fdb (some vlan_id), u)
  by_bvid fdb u bvid none =
      let vlan_id = dbs_get_vlan_id_from_bvid port_util u.db_conn bvid in
      (vlanmac_if fdb vlan_id, cache_vlan bvid vlan_id u)

  unfoldable pub vlanmac_by :
      Dict Text Text → FdbUpdater → Option Text → Option Text → Outcome (Option (List ℕ))
  unfolding by_bvid vlanmac_if
  vlanmac_by fdb u (some vlan) bvid = (vlanmac_if fdb (some vlan), u)
  vlanmac_by fdb u none (some bvid) = by_bvid fdb u bvid (find bvid u.bvid_vlan_map)
  vlanmac_by fdb u none none = (ok none, u)

  unfoldable pub fdb_vlanmac : Dict Text Text → FdbUpdater → Outcome (Option (List ℕ))
  unfolding vlanmac_by
  fdb_vlanmac fdb u = vlanmac_by fdb u (find (codes "vlan") fdb) (find (codes "bvid") fdb)

  unfoldable pub with_vlanmac : Option ℕ → Outcome (Option (List ℕ)) → Outcome Unit
  with_vlanmac port_index (err e, u) = (err e, u)
  with_vlanmac port_index (ok none, u) = (ok tt, u)
  with_vlanmac port_index (ok (some vlanmac), u) =
      (ok tt, record u { rows = add_row vlanmac port_index u.rows })

  -- The name of a port, else of a LAG.
  unfoldable pub port_name : Option Text → Option Text → Option Text
  port_name (some name) lag = some name
  port_name none lag = lag

  unfoldable pub with_name : FdbUpdater → Dict Text Text → Option Text → Outcome Unit
  unfolding with_vlanmac fdb_vlanmac
  with_name u fdb none = (ok tt, u)
  with_name u fdb (some name) = with_vlanmac (port_util.get_index_from_str name) (fdb_vlanmac fdb u)

  unfoldable pub with_port : FdbUpdater → Dict Text Text → Option Text → Outcome Unit
  unfolding with_name port_name
  with_port u fdb none = (ok tt, u)
  with_port u fdb (some port_id) =
      with_name u fdb (port_name (find port_id u.if_id_map) (find port_id u.sai_lag_map))

  unfoldable pub is_broken : Text → List Text → Bool
  is_broken s [] = false
  is_broken s (broken ∷ more) = s ≟ broken || is_broken s more

  -- The entry is reported once.
  unfoldable pub with_bridge_port : FdbUpdater → Text → Dict Text Text → Option Text → Outcome Unit
  unfolding with_port is_broken
  with_bridge_port u s fdb none = (
    ok tt,
    record u {
      broken_fdbs = if is_broken s u.broken_fdbs then u.broken_fdbs else u.broken_fdbs ++ (s ∷ []);
    },
  )
  with_bridge_port u s fdb (some bridge_port_id_attr) =
      with_port u fdb (find (drop 6 bridge_port_id_attr) u.if_bpid_map)

  unfoldable pub with_entry : FdbUpdater → Text → Dict Text Text → Dict Text Text → Outcome Unit
  unfolding with_bridge_port
  with_entry u s fdb [] = (ok tt, u)
  with_entry u s fdb (field ∷ ent) =
      with_bridge_port u s fdb (find (codes "SAI_FDB_ENTRY_ATTR_BRIDGE_PORT_ID") (field ∷ ent))

  unfoldable pub with_fdb : FdbUpdater → Text → Option (Dict Text Text) → Outcome Unit
  unfolding with_entry
  with_fdb u s none = (ok tt, u)
  with_fdb u s (some fdb) = with_entry u s fdb (dbs_get_all u.db_conn asic_db s)

  -- An exception leaves the loop, and the rows of the entries before it.
  unfoldable pub update_from : FdbUpdater → List Text → Outcome Unit
  unfolding with_fdb
  update_from u [] = (ok tt, record u { rows = sort_rows u.rows })
  update_from u (s ∷ fdb_strings) =
      let (r, u') = with_fdb u s (loads (last_part colon 2 s)) in
      elim r [ err e ↦ (err e, u') | ok done ↦ update_from u' fdb_strings ]

  unfoldable pub update_data : FdbUpdater → Outcome Unit
  unfolding update_from
  update_data u =
      update_from (record u { rows = no_rows })
        (dbs_keys u.db_conn asic_db (codes "ASIC_STATE:SAI_OBJECT_TYPE_FDB_ENTRY:*"))

-- `vlanmac_ifindex_map.get(sub_id, None)`
unfoldable pub fdb_ifindex : FdbUpdater → List ℕ → Option ℕ
unfolding flatten
fdb_ifindex u sub_id = flatten (value_of u.rows sub_id)

-- `dot1qTpFdbPort` under the given prefix of its class.
unfoldable pub dot1q_tp_fdb_port : FdbUpdater → List ℕ → ℕ → MibEntry
dot1q_tp_fdb_port u prefix prefixlen = record {
  value_type = integer;
  subtree = 2 ∷ 2 ∷ 1 ∷ 2 ∷ [];
  prefix = prefix;
  prefixlen = prefixlen;
  handler = subtree (next_sub_id u.rows.sub_ids) (λ sub_id. int_data (fdb_ifindex u sub_id));
}
