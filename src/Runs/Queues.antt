-- ===== src/Runs/Queues.antt =====
-- A run of the queue counters over a small database.
use sonic_snmpagent.Prelude.{ℕ, ◌≡◌, refl, List, [], ◌∷◌, none, some, ok, if◌then◌else◌}
use sonic_snmpagent.Dict.{list_eq, ◌≟◌}
use sonic_snmpagent.Strings.{codes, split_at, to_int, str}
use sonic_snmpagent.Order.{In, sorted, lt_tuple}
use sonic_snmpagent.Mibs.Effect.{and_then, for_each, with_result}
use sonic_snmpagent.Mibs.Tables.Queues.{two_parts}
use sonic_snmpagent.Mibs.Rows.{no_rows, add_row, sort_rows}
use sonic_snmpagent.Mibs.Rows.Steps.{then_sort}
use sonic_snmpagent.Mib.Successor.{IsLawful}
use sonic_snmpagent.Mibs.Keys.{counters_db, queue_key, queue_table}
use sonic_snmpagent.Mibs.Namespace.{DbConn, get_namespace_db_map, dbs_get_all}
use sonic_snmpagent.Mibs.Qos.Stats
use sonic_snmpagent.Mibs.Qos.{QueueStatUpdater}
use sonic_snmpagent.Mibs.Qos.Stats.{queue_stat_request}
use sonic_snmpagent.Mibs.Qos.Filled.{IsQueueOid}
use sonic_snmpagent.Mibs.Qos.Table.{queue_stat-IsLawful}

-- The counter of one queue, and two queues at most.
abbrev queue_db : DbConn
queue_db = record {
  namespace = [];
  keys = λ db pattern. none;
  get_all = λ db key.
      if db ≟ counters_db
      then some ((codes "SAI_QUEUE_STAT_PACKETS", codes "7") ∷ [])
      else some ((codes "max_queues", codes "2") ∷ []);
}

abbrev queues : QueueStatUpdater
queues = record {
  db_conn = queue_db ∷ [];
  if_id_map = [];
  oid_name_map = (1, codes "Ethernet0") ∷ [];
  port_queues_map = (codes "1:0", codes "15") ∷ [];
  queue_stat_map = [];
  port_queue_list_map = (1, 0 ∷ []) ∷ [];
  rows = record { value_map = []; sub_ids = [] };
  queue_type_map = ([], some ((codes "15", codes "SAI_QUEUE_TYPE_MULTICAST") ∷ [])) ∷ [];
  port_index_namespace = (some 1, []) ∷ [];
}

abbrev queues' : QueueStatUpdater
queues' = record queues {
  queue_stat_map = (codes "1:COUNTERS:15", (codes "SAI_QUEUE_STAT_PACKETS", codes "7") ∷ []) ∷ [];
  rows = record {
    value_map =
        (1 ∷ 2 ∷ 1 ∷ 3 ∷ [], 7)
        ∷ (1 ∷ 2 ∷ 1 ∷ 4 ∷ [], 0)
        ∷ (1 ∷ 2 ∷ 1 ∷ 7 ∷ [], 0)
        ∷ (1 ∷ 2 ∷ 1 ∷ 8 ∷ [], 0)
        ∷ [];
    sub_ids =
        (1 ∷ 2 ∷ 1 ∷ 3 ∷ [])
        ∷ (1 ∷ 2 ∷ 1 ∷ 4 ∷ [])
        ∷ (1 ∷ 2 ∷ 1 ∷ 7 ∷ [])
        ∷ (1 ∷ 2 ∷ 1 ∷ 8 ∷ [])
        ∷ [];
  };
}

queues_run : Stats.update_data queues ≡ (ok tt, queues')
unfolding Stats.update_data and_then for_each with_result two_parts split_at to_int
    get_namespace_db_map then_sort queue_key str dbs_get_all queue_table no_rows add_row sort_rows
    sorted lt_tuple
queues_run = refl

queue_stat-IsLawful_example :
    IsLawful (queue_stat_request queues' (1 ∷ 3 ∷ []) 2) (λ k. In k queues'.rows.sub_ids)
    × ((k : List ℕ) → In k queues'.rows.sub_ids → IsQueueOid queues'.oid_name_map k)
queue_stat-IsLawful_example = queue_stat-IsLawful queues queues' (1 ∷ 3 ∷ []) 2 queues_run
