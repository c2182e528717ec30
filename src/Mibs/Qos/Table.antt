-- ===== src/Mibs/Qos/Table.antt =====
-- The table of the queues after an update.
use sonic_snmpagent.Prelude.{
  ℕ, true, pos, ◌%◌, ◌^◌, ◌≡◌, refl, ap, List, [], ◌∷◌, Option, none, some, ok, err, Bool-cases,
  inl, inr,
}
use sonic_snmpagent.Constants.{counter_64}
use sonic_snmpagent.Encodings.Value.{int}
use sonic_snmpagent.Dict.{Dict, find, contains, item, nat_eq, list_eq, option_eq}
use sonic_snmpagent.Strings.{Text}
use sonic_snmpagent.Order.{In, lt_tuple}
use sonic_snmpagent.Order.Sorting.{IsSorted, sorted-IsSorted, In-sorted}
use sonic_snmpagent.Mib.Successor.{IsLawful}
use sonic_snmpagent.Mibs.Effect.{
  Keeps, Keeps-ok, and_then_both, and_then_last, with_result-Keeps, for_each, for_each-Keeps,
  for_each-All-Keeps,
}
use sonic_snmpagent.Mibs.Rows.{Rows, no_rows, sort_rows}
use sonic_snmpagent.Mibs.Rows.Steps.{Step, then_sort}
use sonic_snmpagent.Mibs.Rows.Table.{no_rows-IsTable, sort_rows-IsTable, subtree-IsLawful}
use sonic_snmpagent.Mibs.Values.{int_data}
use sonic_snmpagent.Mibs.Qos.{QueueStatUpdater, update_queue}
use sonic_snmpagent.Mibs.Qos.Stats.{
  counter_map, has_type, int_or_zero, queue_number, mib_oid, add_counter, queue_type_of,
  pq_count_of, add_queue, add_queues, add_port, set_rows, update_stats, update_data, masked,
  handle_stat_request, queue_stat_request,
}
use sonic_snmpagent.Mibs.Qos.Filled.{
  Any, IsQueueOid, IsFilled, IsCounter, IsInterface, add_new-Keeps, queue_number_bound,
  All-counters, All-interfaces,
}

module _ (u : QueueStatUpdater) where
  add_counter-Keeps :
      (if_index pq_count queue : ℕ) (queue_type : Option Text) (stat : Dict Text Text)
      (entry : Text × Text × ℕ) (r : Rows ℕ)
      → contains if_index u.oid_name_map ≡ true
      → IsCounter entry
      → IsFilled u.oid_name_map r
      → Keeps
          (IsFilled u.oid_name_map)
          (add_counter if_index pq_count queue queue_type stat entry r)
  unfolding add_counter
  add_counter-Keeps if_index pq_count queue queue_type stat (counter, counter_type, id) r there
        (low, high) t =
      with_result-Keeps (IsFilled u.oid_name_map) (queue_number queue pq_count) r _ (λ q e.
        elim (Bool-cases (has_type counter_type queue_type)) [
          | inl h ↦ rw h (
              with_result-Keeps (IsFilled u.oid_name_map) (int_or_zero (find counter stat)) r _
                (λ value f.
                  add_new-Keeps u.oid_name_map (mib_oid if_index q id) value r
                    (unfold lt_tuple in refl)
                    (if_index, q, id, refl, there, queue_number_bound queue pq_count q e, low, high)
                    t))
          | inr h ↦ rw h t
        ])

  add_queue-Keeps :
      (if_index : ℕ) (namespace : Text) (pq_count queue : ℕ) (r : Rows ℕ)
      → contains if_index u.oid_name_map ≡ true
      → IsFilled u.oid_name_map r
      → Keeps (IsFilled u.oid_name_map) (add_queue u if_index namespace pq_count queue r)
  unfolding add_queue
  add_queue-Keeps if_index namespace pq_count queue r there t =
      with_result-Keeps (IsFilled u.oid_name_map) (queue_type_of u if_index namespace queue) r _
        (λ found e.
          for_each-All-Keeps (IsFilled u.oid_name_map) IsCounter _ counter_map r All-counters
            (λ entry s c w. add_counter-Keeps if_index pq_count queue found.1 _ entry s there c w)
            t)

  add_queues-Keeps :
      (if_index : ℕ) (name : Text) (queues : Option (List ℕ)) (r : Rows ℕ)
      → contains if_index u.oid_name_map ≡ true
      → IsFilled u.oid_name_map r
      → Keeps (IsFilled u.oid_name_map) (add_queues u if_index name queues r)
  unfolding add_queues
  add_queues-Keeps if_index name none r there t = t
  add_queues-Keeps if_index name (some queues) r there t =
      with_result-Keeps (IsFilled u.oid_name_map) (item (some if_index) u.port_index_namespace) r _
        (λ namespace e.
          with_result-Keeps (IsFilled u.oid_name_map) (pq_count_of u if_index name namespace queues)
            r _
            (λ n h.
              for_each-Keeps (IsFilled u.oid_name_map) _ queues r
                (λ queue s w. add_queue-Keeps if_index namespace n queue s there w) t))

  add_port-Keeps :
      (port : ℕ × Text) (r : Rows ℕ)
      → IsInterface u.oid_name_map port
      → IsFilled u.oid_name_map r
      → Keeps (IsFilled u.oid_name_map) (add_port u port r)
  unfolding add_port
  add_port-Keeps (if_index, name) r there t =
      add_queues-Keeps if_index name (find if_index u.port_queue_list_map) r there t

abbrev IsUpdated : Dict ℕ Text → Rows ℕ → Type 0
IsUpdated names r = IsFilled names r × IsSorted r.sub_ids

then_sort-Keeps :
    (names : Dict ℕ Text) (o : Step ℕ)
    → Keeps (IsFilled names) o
    → Keeps (IsUpdated names) (then_sort o)
unfolding then_sort sort_rows
then_sort-Keeps names o h = and_then_both (IsFilled names) (IsUpdated names) o _ h (λ r f. (
  (sort_rows-IsTable Any r f.0, λ k i. f.1 k ((In-sorted k r.sub_ids).0 i)),
  sorted-IsSorted r.sub_ids,
))

set_rows-Keeps :
    (u : QueueStatUpdater) (o : Step ℕ)
    → Keeps (IsUpdated u.oid_name_map) o
    → Keeps (λ s. IsUpdated s.oid_name_map s.rows) (set_rows u o)
unfolding set_rows
set_rows-Keeps u (err e, r) h = tt
set_rows-Keeps u (ok done, r) h = h

update_stats-Keeps :
    (u : QueueStatUpdater) → Keeps (λ s. IsUpdated s.oid_name_map s.rows) (update_stats u)
unfolding update_stats no_rows
update_stats-Keeps u = set_rows-Keeps u _ (
    then_sort-Keeps u.oid_name_map _ (
      for_each-All-Keeps (IsFilled u.oid_name_map) (IsInterface u.oid_name_map) (add_port u)
        u.oid_name_map no_rows (All-interfaces u.oid_name_map)
        (λ port s there w. add_port-Keeps u port s there w) (no_rows-IsTable Any, λ k i. absurd i)))

-- After an update that returns, the entry of csqIfQosGroupStatsTable fulfils the contract of a
-- handler over the listed names, and each of these is an interface of the device, 2 for egress, a
-- queue from 1 on, and the number of a counter, from 1 to 8.
pub queue_stat-IsLawful :
    (u u' : QueueStatUpdater) (prefix : List ℕ) (prefixlen : ℕ)
    → update_data u ≡ (ok tt, u')
    → IsLawful (queue_stat_request u' prefix prefixlen) (λ k. In k u'.rows.sub_ids)
      × ((k : List ℕ) → In k u'.rows.sub_ids → IsQueueOid u'.oid_name_map k)
unfolding update_data queue_stat_request handle_stat_request masked int_data
queue_stat-IsLawful u u' prefix prefixlen e =
    let ((t, shaped), order) =
      Keeps-ok (λ s. IsUpdated s.oid_name_map s.rows) (update_data u) u'
        (and_then_last (λ s. IsUpdated s.oid_name_map s.rows)
          (for_each update_queue u.port_queues_map u) update_stats update_stats-Keeps)
        e in
    (
      subtree-IsLawful counter_64 (1 ∷ 4 ∷ []) prefix prefixlen u'.rows.sub_ids
          (λ sub_id. int_data (handle_stat_request u' sub_id)) order t.filled
          (λ k i.
            let (v, found, fine) = t.valued k i in
            (int (pos (v % 2 ^ 64)), ap (λ o. int_data (masked o)) found)),
      shaped,
    )
