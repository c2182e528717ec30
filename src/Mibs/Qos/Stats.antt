-- ===== src/Mibs/Qos/Stats.antt =====
-- src/sonic_ax_impl/mibs/vendor/cisco/ciscoSwitchQosMIB.py: the statistics of QueueStatUpdater.
use sonic_snmpagent.Prelude.{
  ℕ, zero, suc, ◌+◌, ◌%◌, ◌/◌, ◌^◌, List, [], ◌∷◌, Option, none, some, Result, ok, err,
  attribute_error, zero_division_error, ◌>>=◌, Bool, false, ltb, if◌then◌else◌,
}
use sonic_snmpagent.Constants.{counter_64}
use sonic_snmpagent.Dict.{Dict, find, item, contains, ◌≟◌, nat_eq, list_eq, option_eq}
use sonic_snmpagent.Strings.{Text, codes, to_int, str}
use sonic_snmpagent.Mib.Entry.{MibEntry, subtree}
use sonic_snmpagent.Mibs.Effect.{Effect, and_then, with_result, for_each}
use sonic_snmpagent.Mibs.Keys.{state_db, queue_table, queue_key, buffer_max_parm_table}
use sonic_snmpagent.Mibs.Namespace.{dbs_get_all}
use sonic_snmpagent.Mibs.Rows.{Rows, no_rows, add_row, next_sub_id}
use sonic_snmpagent.Mibs.Rows.Steps.{Step, then_sort}
use sonic_snmpagent.Mibs.Values.{int_data}
use sonic_snmpagent.Mibs.Qos.{QueueStatUpdater, update_queue}

abbrev unicast : Text
unicast = codes "SAI_QUEUE_TYPE_UNICAST"

abbrev multicast : Text
multicast = codes "SAI_QUEUE_TYPE_MULTICAST"

-- The counters with their types and numbers.
unfoldable pub counter_map : List (Text × Text × ℕ)
counter_map =
    (codes "SAI_QUEUE_STAT_PACKETS", unicast, 1)
    ∷ (codes "SAI_QUEUE_STAT_BYTES", unicast, 2)
    ∷ (codes "SAI_QUEUE_STAT_PACKETS", multicast, 3)
    ∷ (codes "SAI_QUEUE_STAT_BYTES", multicast, 4)
    ∷ (codes "SAI_QUEUE_STAT_DROPPED_PACKETS", unicast, 5)
    ∷ (codes "SAI_QUEUE_STAT_DROPPED_BYTES", unicast, 6)
    ∷ (codes "SAI_QUEUE_STAT_DROPPED_PACKETS", multicast, 7)
    ∷ (codes "SAI_QUEUE_STAT_DROPPED_BYTES", multicast, 8)
    ∷ []

-- `None` has no `get`.
unfoldable pub types_of : Option (Dict Text Text) → Result (Dict Text Text)
types_of none = err attribute_error
types_of (some types) = ok types

unfoldable pub has_type : Text → Option Text → Bool
has_type counter_type none = false
has_type counter_type (some queue_type) = queue_type ≟ counter_type

-- `int(queue_stat.get(counter, 0))`
unfoldable pub int_or_zero : Option Text → Result ℕ
int_or_zero none = ok 0
int_or_zero (some text) = to_int text

-- `math.ceil(n / 2)`, for numbers that a float holds.
unfoldable pub ceil_half : ℕ → ℕ
ceil_half n = (n + 1) / 2

-- `(queue % pq_count) + 1`
unfoldable pub queue_number : ℕ → ℕ → Result ℕ
queue_number queue zero = err zero_division_error
queue_number queue (suc n) = ok (queue % suc n + 1)

-- The stored statistics, or an empty dict.
unfoldable pub stat_or_empty : Option (Dict Text Text) → Dict Text Text
stat_or_empty none = []
stat_or_empty (some stat) = stat

-- The sub-identifier of a counter of a queue: 2 is DirectionTypes.EGRESS.
abbrev pub mib_oid : ℕ → ℕ → ℕ → List ℕ
mib_oid if_index queue_index counter_mib_id = if_index ∷ 2 ∷ queue_index ∷ counter_mib_id ∷ []

-- The first counter under a sub-identifier stays.
unfoldable pub add_new : List ℕ → ℕ → Rows ℕ → Step ℕ
add_new oid value r = if contains oid r.value_map then (ok tt, r) else (ok tt, add_row oid value r)

unfoldable pub add_counter :
    ℕ → ℕ → ℕ → Option Text → Dict Text Text → Text × Text × ℕ → Rows ℕ → Step ℕ
unfolding queue_number has_type int_or_zero add_new
add_counter if_index pq_count queue queue_type queue_stat (counter, counter_type, counter_mib_id)
      r =
    with_result (queue_number queue pq_count) r (λ queue_index.
      if has_type counter_type queue_type
      then with_result (int_or_zero (find counter queue_stat)) r
          (λ value. add_new (mib_oid if_index queue_index counter_mib_id) value r)
      else (ok tt, r))

module _ (u : QueueStatUpdater) where
  unfoldable pub queue_type_of : ℕ → Text → ℕ → Result (Text × Option Text)
  unfolding types_of
  queue_type_of if_index namespace queue = do
    queue_sai_oid ← item (queue_key (str if_index) (str queue)) u.port_queues_map
    type_map ← item namespace u.queue_type_map
    types ← types_of type_map
    ok (queue_sai_oid, find queue_sai_oid types)

  unfoldable pub count_unicast : ℕ → Text → List ℕ → Result ℕ
  unfolding queue_type_of has_type
  count_unicast if_index namespace [] = ok 0
  count_unicast if_index namespace (queue ∷ if_queues) = do
    (queue_sai_oid, queue_type) ← queue_type_of if_index namespace queue
    pq_count ← count_unicast if_index namespace if_queues
    ok (if has_type unicast queue_type then pq_count + 1 else pq_count)

  unfoldable pub pq_count_of : ℕ → Text → Text → List ℕ → Result ℕ
  unfolding count_unicast ceil_half
  pq_count_of if_index name namespace if_queues = do
    pq_count ← count_unicast if_index namespace if_queues
    port_max_queues ←
        item (codes "max_queues") (dbs_get_all u.db_conn state_db (buffer_max_parm_table name))
    max_queues ← to_int port_max_queues
    ok (if ltb pq_count (ceil_half max_queues) then ceil_half max_queues else pq_count)

  unfoldable pub add_queue : ℕ → Text → ℕ → ℕ → Rows ℕ → Step ℕ
  unfolding queue_type_of add_counter stat_or_empty counter_map
  add_queue if_index namespace pq_count queue r =
      with_result (queue_type_of if_index namespace queue) r (λ found.
        for_each
          (add_counter if_index pq_count queue found.1 (
            stat_or_empty (find (queue_key (str if_index) (queue_table found.0)) u.queue_stat_map)))
          counter_map r)

  unfoldable pub add_queues : ℕ → Text → Option (List ℕ) → Rows ℕ → Step ℕ
  unfolding pq_count_of add_queue
  add_queues if_index name none r = (ok tt, r)
  add_queues if_index name (some if_queues) r =
      with_result (item (some if_index) u.port_index_namespace) r (λ namespace.
        with_result (pq_count_of if_index name namespace if_queues) r
          (λ pq_count. for_each (add_queue if_index namespace pq_count) if_queues r))

  unfoldable pub add_port : ℕ × Text → Rows ℕ → Step ℕ
  unfolding add_queues
  add_port (if_index, name) r = add_queues if_index name (find if_index u.port_queue_list_map) r

unfoldable pub set_rows : QueueStatUpdater → Step ℕ → Effect QueueStatUpdater
set_rows u (raised, rows) = (raised, record u { rows = rows })

unfoldable pub update_stats : QueueStatUpdater → Effect QueueStatUpdater
unfolding add_port set_rows
update_stats u = set_rows u (then_sort (for_each (add_port u) u.oid_name_map no_rows))

unfoldable pub update_data : QueueStatUpdater → Effect QueueStatUpdater
unfolding update_queue update_stats
update_data u = and_then (for_each update_queue u.port_queues_map u) update_stats

-- `value & 0xffffffffffffffff`, if there is one.
unfoldable pub masked : Option ℕ → Option ℕ
masked none = none
masked (some value) = some (value % 2 ^ 64)

unfoldable pub handle_stat_request : QueueStatUpdater → List ℕ → Option ℕ
unfolding masked
handle_stat_request u sub_id = masked (find sub_id u.rows.value_map)

unfoldable pub queue_stat_request : QueueStatUpdater → List ℕ → ℕ → MibEntry
queue_stat_request u prefix prefixlen = record {
  value_type = counter_64;
  subtree = 1 ∷ 4 ∷ [];
  prefix = prefix;
  prefixlen = prefixlen;
  handler =
      subtree (next_sub_id u.rows.sub_ids) (λ sub_id. int_data (handle_stat_request u sub_id));
}
