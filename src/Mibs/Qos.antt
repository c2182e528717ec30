-- ===== src/Mibs/Qos.antt =====
-- src/sonic_ax_impl/mibs/vendor/cisco/ciscoSwitchQosMIB.py: QueueStatUpdater.
pub mod Stats
pub mod Filled
pub mod Table
use sonic_snmpagent.Prelude.{
  ℕ, zero, suc, ◌+◌, ◌%◌, ◌/◌, ◌^◌, List, [], ◌∷◌, Option, none, some, Result, ok, err, key_error,
  attribute_error, zero_division_error, ◌>>=◌, Bool, false, ltb, if◌then◌else◌,
}
use sonic_snmpagent.Constants.{counter_64}
use sonic_snmpagent.Dict.{Dict, find, item, set, contains, ◌≟◌, nat_eq, list_eq, option_eq}
use sonic_snmpagent.Strings.{Text, codes, split_at, colon, to_int, str}
use sonic_snmpagent.Mib.Entry.{MibEntry, subtree}
use sonic_snmpagent.Mibs.Effect.{Effect, and_then, with_result, for_each}
use sonic_snmpagent.Mibs.Keys.{
  counters_db, state_db, queue_table, queue_key, buffer_max_parm_table, split_sai_id_key,
}
use sonic_snmpagent.Mibs.Namespace.{DbConn, dbs_get_all, get_namespace_db_map, get_non_host_dbs}
use sonic_snmpagent.Mibs.PortUtil.{PortUtil}
use sonic_snmpagent.Mibs.Rows.{Rows, no_rows, add_row, next_sub_id}
use sonic_snmpagent.Mibs.Rows.Steps.{Step, then_sort}
use sonic_snmpagent.Mibs.Tables.{merged, init_sync_d_interface_tables}
use sonic_snmpagent.Mibs.Tables.Queues.{two_parts, init_sync_d_queue_tables}
use sonic_snmpagent.Mibs.Values.{int_data}

-- `rows` holds `mib_oid_to_queue_map` and `mib_oid_list`. The map of a namespace without queue types
-- is `None`.
pub record QueueStatUpdater : Type 0 where
  pub db_conn : List DbConn
  pub if_id_map : Dict Text Text
  pub oid_name_map : Dict ℕ Text
  pub port_queues_map : Dict Text Text
  pub queue_stat_map : Dict Text (Dict Text Text)
  pub port_queue_list_map : Dict ℕ (List ℕ)
  pub rows : Rows ℕ
  pub queue_type_map : Dict Text (Option (Dict Text Text))
  pub port_index_namespace : Dict (Option ℕ) Text

module _ (port_util : PortUtil) where
  unfoldable pub reinit_ports : QueueStatUpdater → Effect QueueStatUpdater
  reinit_ports u =
      with_result
        (do
          if_id_map ← merged (init_sync_d_interface_tables port_util) (λ t. t.if_id_map) u.db_conn
          oid_name_map ←
              merged (init_sync_d_interface_tables port_util) (λ t. t.oid_name_map) u.db_conn
          ok (record u { if_id_map = if_id_map; oid_name_map = oid_name_map }))
        u (λ u'. (ok tt, u'))

  unfoldable pub note_namespace : Text × Text → QueueStatUpdater → Effect QueueStatUpdater
  note_namespace (sai_id_key, if_name) u =
      let (namespace, sai_id) = split_sai_id_key sai_id_key in
      (
        ok tt,
        record u {
          port_index_namespace =
              set (port_util.get_index_from_str if_name) namespace u.port_index_namespace;
        },
      )

  unfoldable pub read_queues : QueueStatUpdater → Effect QueueStatUpdater
  read_queues u =
      with_result
        (do
          queues ← merged (init_sync_d_queue_tables port_util) (λ t. t.port_queues_map) u.db_conn
          stats ← merged (init_sync_d_queue_tables port_util) (λ t. t.queue_stat_map) u.db_conn
          lists ← merged (init_sync_d_queue_tables port_util) (λ t. t.port_queue_list_map) u.db_conn
          ok (record u {
            port_queues_map = queues;
            queue_stat_map = stats;
            port_queue_list_map = lists;
          }))
        u (λ u'. (ok tt, u'))

  unfoldable pub read_types : DbConn → QueueStatUpdater → Effect QueueStatUpdater
  read_types db u = (
    ok tt,
    record u {
      queue_type_map =
          set db.namespace (db.get_all counters_db (codes "COUNTERS_QUEUE_TYPE_MAP"))
            u.queue_type_map;
    },
  )

  unfoldable pub reinit_data : QueueStatUpdater → Effect QueueStatUpdater
  unfolding reinit_ports note_namespace read_queues read_types
  reinit_data u = and_then (reinit_ports u) (λ u1.
      and_then (for_each note_namespace u1.if_id_map u1) (λ u2.
        and_then (read_queues u2) (λ u3. for_each read_types (get_non_host_dbs u3.db_conn) u3)))

-- `del map[key]`
unfoldable pub remove : Text → Dict Text (Dict Text Text) → Result (Dict Text (Dict Text Text))
remove key [] = err key_error
remove key ((k, stat) ∷ d) =
    let rest = remove key d in if key ≟ k then ok d else (do d' ← rest; ok ((k, stat) ∷ d'))

unfoldable pub store_stat :
    Text → Option (Dict Text Text) → QueueStatUpdater → Effect QueueStatUpdater
unfolding remove
store_stat key none u =
    with_result (remove key u.queue_stat_map) u (λ m. (ok tt, record u { queue_stat_map = m }))
store_stat key (some stat) u = (ok tt, record u { queue_stat_map = set key stat u.queue_stat_map })

-- The port index in the key of a queue, with the connector of the namespace of the port.
unfoldable pub queue_db : QueueStatUpdater → Text → Result (Text × DbConn)
queue_db u queue = do
  (port_index, rest) ← two_parts (split_at colon queue)
  number ← to_int port_index
  namespace ← item (some number) u.port_index_namespace
  db ← item namespace (get_namespace_db_map [] u.db_conn)
  ok (port_index, db)

unfoldable pub update_queue : Text × Text → QueueStatUpdater → Effect QueueStatUpdater
unfolding queue_db store_stat
update_queue (queue, sai_id) u =
    let queue_stat_name = queue_table sai_id in
    with_result (queue_db u queue) u (λ found.
      store_stat (queue_key found.0 queue_stat_name) (found.1.get_all counters_db queue_stat_name)
        u)
