-- ===== src/Mibs/Tables/Queues.antt =====
-- The queue tables of src/sonic_ax_impl/mibs/__init__.py.
use sonic_snmpagent.Prelude.{
  ℕ, List, [], ◌∷◌, ◌++◌, Option, none, some, Result, ok, err, value_error, type_error,
  attribute_error, ◌>>=◌, if◌then◌else◌,
}
use sonic_snmpagent.Util.Text.{is_digit}
use sonic_snmpagent.Dict.{Dict, set, find, nat_eq, list_eq}
use sonic_snmpagent.Strings.{Text, codes, split_at, colon, to_int, str}
use sonic_snmpagent.Mibs.Keys.{counters_db, queue_table, queue_key}
use sonic_snmpagent.Mibs.Namespace.{DbConn, or_empty}
use sonic_snmpagent.Mibs.Numbers.{sort_nat}
use sonic_snmpagent.Mibs.PortUtil.{PortUtil}

-- The tuple that `init_sync_d_queue_tables` returns.
pub record QueueTables : Type 0 where
  pub port_queues_map : Dict Text Text
  pub queue_stat_map : Dict Text (Dict Text Text)
  pub port_queue_list_map : Dict ℕ (List ℕ)

abbrev no_queues : QueueTables
no_queues = record { port_queues_map = []; queue_stat_map = []; port_queue_list_map = [] }

-- `''.join(i for i in queue_index if i.isdigit())`
unfoldable pub digits_of : Text → Text
digits_of [] = []
digits_of (c ∷ text) = let rest = digits_of text in if is_digit c then c ∷ rest else rest

-- Unpacking another number of parts than two raises ValueError.
unfoldable pub two_parts : List Text → Result (Text × Text)
two_parts [] = err value_error
two_parts (a ∷ []) = err value_error
two_parts (port_name ∷ queue_index ∷ []) = ok (port_name, queue_index)
two_parts (a ∷ b ∷ c ∷ more) = err value_error

unfoldable pub sort_values : Dict ℕ (List ℕ) → Dict ℕ (List ℕ)
sort_values [] = []
sort_values ((k, queues) ∷ d) = (k, sort_nat queues) ∷ sort_values d

-- `str(port_index)` and `int(port_index)`, where `None` is `'None'` and no number.
unfoldable pub index_text : Option ℕ → Text
index_text none = codes "None"
index_text (some n) = str n

unfoldable pub index_number : Option ℕ → Result ℕ
index_number none = err type_error
index_number (some n) = ok n

unfoldable pub add_stat :
    Text → Option (Dict Text Text) → Dict Text (Dict Text Text) → Dict Text (Dict Text Text)
add_stat key none queue_stat_map = queue_stat_map
add_stat key (some queue_stat) queue_stat_map = set key queue_stat queue_stat_map

-- `port_queue_list_map.get(index)` may be missing.
unfoldable pub append_queue : ℕ → ℕ → Dict ℕ (List ℕ) → Dict ℕ (List ℕ)
unfolding or_empty
append_queue port_index queue_index lists =
    set port_index (or_empty (find port_index lists) ++ (queue_index ∷ [])) lists

-- The maps without a queue, or without a counter, are all dropped.
unfoldable pub checked : QueueTables → Dict Text Text → Dict Text (Dict Text Text) → QueueTables
unfolding sort_values
checked q [] stats = no_queues
checked q (p ∷ queues) [] = no_queues
checked q (p ∷ queues) (s ∷ stats) = record q {
  port_queue_list_map = sort_values q.port_queue_list_map;
}

module _ (port_util : PortUtil) (db_conn : DbConn) where
  -- One round of the loop over the queues.
  unfoldable pub add_queue : Text → Text → QueueTables → Result QueueTables
  unfolding two_parts digits_of index_text index_number add_stat append_queue queue_key
  add_queue queue_name sai_id q = do
    (port_name, index) ← two_parts (split_at colon queue_name)
    let queue_index = digits_of index
    let port_index = port_util.get_index_from_str port_name
    let name = queue_table sai_id
    port ← index_number port_index
    number ← to_int queue_index
    ok (record {
      port_queues_map =
          set (queue_key (index_text port_index) queue_index) sai_id q.port_queues_map;
      queue_stat_map =
          add_stat (queue_key (index_text port_index) name) (db_conn.get_all counters_db name)
            q.queue_stat_map;
      port_queue_list_map = append_queue port number q.port_queue_list_map;
    })

  unfoldable pub add_queues : Dict Text Text → QueueTables → Result QueueTables
  unfolding add_queue
  add_queues [] q = ok q
  add_queues ((queue_name, sai_id) ∷ items) q = do
    q' ← add_queue queue_name sai_id q
    add_queues items q'

  -- `None` has no `items`.
  unfoldable pub queue_tables : Option (Dict Text Text) → Result QueueTables
  unfolding add_queues checked
  queue_tables none = err attribute_error
  queue_tables (some queue_name_map) = do
    q ← add_queues queue_name_map no_queues
    ok (checked q q.port_queues_map q.queue_stat_map)

  unfoldable pub init_sync_d_queue_tables : Result QueueTables
  unfolding queue_tables
  init_sync_d_queue_tables =
      queue_tables (db_conn.get_all counters_db (codes "COUNTERS_QUEUE_NAME_MAP"))
