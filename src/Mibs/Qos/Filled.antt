-- ===== src/Mibs/Qos/Filled.antt =====
-- The names of the counters of the queues, and the row that is added for one.
use sonic_snmpagent.Prelude.{
  ℕ, All, true, zero, suc, ◌+◌, ◌%◌, ◌≤◌, ◌≡◌, ◌⊎◌, refl, arith, List, [], ◌∷◌, ok, Bool-cases, inl,
  inr,
}
use sonic_snmpagent.Dict.{Dict, contains, nat_eq, ◌≟◌, list_eq, option_eq}
use sonic_snmpagent.Strings.{Text}
use sonic_snmpagent.Order.{◌≺◌, In}
use sonic_snmpagent.Mibs.Effect.{Keeps}
use sonic_snmpagent.Mibs.Rows.{Rows, add_row}
use sonic_snmpagent.Mibs.Rows.Table.{IsTable, add_row-IsTable, In-append_last}
use sonic_snmpagent.Mibs.Qos.Stats.{counter_map, queue_number, add_new}

abbrev pub Any : ℕ → Type 0
Any v = Unit

-- The name of a counter: an interface of the device, 2 for egress, a queue from 1 on, and the number
-- of one of the eight counters.
abbrev pub IsQueueOid : Dict ℕ Text → List ℕ → Type 0
IsQueueOid oid_name_map k =
    (if_index queue_index counter : ℕ) × (k ≡ if_index ∷ 2 ∷ queue_index ∷ counter ∷ [])
    × (contains if_index oid_name_map ≡ true)
    × (1 ≤ queue_index)
    × (1 ≤ counter)
    × (counter ≤ 8)

abbrev pub IsFilled : Dict ℕ Text → Rows ℕ → Type 0
IsFilled names r = IsTable Any r × ((k : List ℕ) → In k r.sub_ids → IsQueueOid names k)

pub add_new-Keeps :
    (names : Dict ℕ Text) (k : List ℕ) (value : ℕ) (r : Rows ℕ)
    → [] ≺ k
    → IsQueueOid names k
    → IsFilled names r
    → Keeps (IsFilled names) (add_new k value r)
unfolding add_new add_row
add_new-Keeps names k value r full named (t, shaped) = elim (Bool-cases (contains k r.value_map)) [
  | inl e ↦ rw e (t, shaped)
  | inr e ↦
      rw e (
        add_row-IsTable Any k value r full tt t,
        λ j i. shaped_at j (In-append_last j k r.sub_ids i),
      )
]
  where
    shaped_at : (j : List ℕ) → In j r.sub_ids ⊎ (j ≡ k) → IsQueueOid names j
    shaped_at j (inl old) = shaped j old
    shaped_at j (inr new) = rw new named

pub queue_number_bound : (queue n q : ℕ) → queue_number queue n ≡ ok q → 1 ≤ q
unfolding queue_number
queue_number_bound queue zero q e = absurd cc
queue_number_bound queue (suc n) q e = let h : queue % suc n + 1 ≡ q = cc in rw (← h) (omega arith)

abbrev pub IsCounter : Text × Text × ℕ → Type 0
IsCounter (counter, counter_type, id) = (1 ≤ id) × (id ≤ 8)

pub All-counters : All IsCounter counter_map
All-counters =
    unfold counter_map in
    ((
      (omega arith, omega arith),
      (
        (omega arith, omega arith),
        (
          (omega arith, omega arith),
          (
            (omega arith, omega arith),
            (
              (omega arith, omega arith),
              (
                (omega arith, omega arith),
                ((omega arith, omega arith), ((omega arith, omega arith), tt)),
              ),
            ),
          ),
        ),
      ),
    ))

-- Each interface of a dict is in it.
in_front :
    (k : ℕ) (j : ℕ × Text) (names : Dict ℕ Text)
    → contains k names ≡ true
    → contains k (j ∷ names) ≡ true
in_front k (i, name) names h = elim (Bool-cases (k ≟ i)) [
  | inl e ↦ rw (contains, e) refl
  | inr e ↦ rw (contains, e) h
]

abbrev pub IsInterface : Dict ℕ Text → ℕ × Text → Type 0
IsInterface names (if_index, name) = contains if_index names ≡ true

keep_front :
    (j : ℕ × Text) (names items : Dict ℕ Text)
    → All (IsInterface names) items
    → All (IsInterface (j ∷ names)) items
keep_front j names [] h = tt
keep_front j names ((k, name) ∷ items) (e, h) = (in_front k j names e, keep_front j names items h)

pub All-interfaces : (names : Dict ℕ Text) → All (IsInterface names) names
All-interfaces [] = tt
All-interfaces ((k, name) ∷ names) = (
  elim (Bool-cases (k ≟ k)) [
    | inl e ↦ rw (contains, e) refl
    | inr e ↦ absurd (cc ((nat_eq.test_iff k k).1 refl))
  ],
  keep_front (k, name) names names (All-interfaces names),
)
