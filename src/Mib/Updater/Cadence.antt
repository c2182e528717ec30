-- ===== src/Mib/Updater/Cadence.antt =====
-- When the loop of an updater reinitializes, reconnects and how long it sleeps.
use sonic_snmpagent.Prelude.{
  suc, ◌+◌, ◌*◌, ◌-◌, ◌<◌, ◌≤◌, ◌≡◌, ◌≢◌, ◌⊎◌, false, refl, arith, List, [], ◌∷◌, ◌++◌, length,
  replicate, All, true, if◌then◌else◌,
}
use Prim.Native.Nat.{max}
use sonic_snmpagent.Util.{update_interval_bounds}
use sonic_snmpagent.Mib.Updater.{
  fine, runtime_error, reinit_connection, reinit_data, update_data, Updater, Round, and_then,
  update, attempt, flag_after, round, sleep_time, run,
}

-- While the counter is not above the rate, a round makes one call and counts it, however it ends.
quiet_round :
    (u : Updater) (r : Round)
    → u.update_counter ≤ u.reinit_rate
    → ((round u r).1 ≡ update_data ∷ [])
      × ((round u r).0.update_counter ≡ suc u.update_counter)
      × ((round u r).0.reinit_rate ≡ u.reinit_rate)
unfolding round attempt update
quiet_round u r h = grind arith

-- From a counter of `n` up to the rate, the updater makes no other call than `update_data`, in
-- however many rounds remain until the counter is above the rate, whatever these calls raise.
pub quiet_rounds :
    (u : Updater) (rs : List Round)
    → u.update_counter + length rs ≤ suc u.reinit_rate
    → ((run u rs).1 ≡ replicate (length rs) update_data)
      × ((run u rs).0.update_counter ≡ u.update_counter + length rs)
      × ((run u rs).0.reinit_rate ≡ u.reinit_rate)
unfolding run
quiet_rounds u [] h = (refl, omega arith, refl)
quiet_rounds u (r ∷ rs) h =
    let (calls, counter, rate) = quiet_round u r (omega arith) in
    let (later, total, same) = quiet_rounds (round u r).0 rs (omega arith) in
    (rw (calls, later) refl, omega arith, omega arith)

due_round :
    (u : Updater) (r : Round)
    → u.reinit_rate < u.update_counter
    → r.on_reinit_connection ≡ fine
    → r.on_reinit_data ≡ fine
    → ((round u r).1
        ≡ (if u.redis_exception_happen then reinit_connection ∷ [] else [])
          ++ (reinit_data ∷ update_data ∷ []))
      × ((round u r).0.update_counter ≡ 0)
unfolding round attempt update and_then
due_round u r h c d = grind arith

-- After a round that reset the counter, the next `reinit_rate + 1` rounds only update the data,
-- whatever these updates raise. The round behind them, if its calls before the update return,
-- reinitializes the data and then updates it, with a new connection before if the flag for one is
-- set, and resets the counter again.
pub reinit_period :
    (u : Updater) (rs : List Round) (r : Round)
    → u.update_counter ≡ 0
    → length rs ≡ suc u.reinit_rate
    → r.on_reinit_connection ≡ fine
    → r.on_reinit_data ≡ fine
    → ((run u rs).1 ≡ replicate (length rs) update_data)
      × ((round (run u rs).0 r).1
          ≡ (if (run u rs).0.redis_exception_happen then reinit_connection ∷ [] else [])
            ++ (reinit_data ∷ update_data ∷ []))
      × ((round (run u rs).0 r).0.update_counter ≡ 0)
reinit_period u rs r zero_counter full c d =
    let (calls, counter, rate) = quiet_rounds u rs (omega arith) in
    let (due, reset) = due_round (run u rs).0 r (omega arith) c d in (calls, due, reset)

-- A reinitialization of the data that is due and ends in a RuntimeError ends the body before the
-- update and leaves the counter, so that the next round opens a new connection, reinitializes the
-- data and updates it, if its calls before the update return.
pub reinit_retries :
    (u : Updater) (r s : Round)
    → u.reinit_rate < u.update_counter
    → r.on_reinit_connection ≡ fine
    → r.on_reinit_data ≡ runtime_error
    → s.on_reinit_connection ≡ fine
    → s.on_reinit_data ≡ fine
    → ((run u (r ∷ s ∷ [])).1
        ≡ (if u.redis_exception_happen then reinit_connection ∷ [] else [])
          ++ (reinit_data ∷ reinit_connection ∷ reinit_data ∷ update_data ∷ []))
unfolding run round attempt update and_then flag_after
reinit_retries u r s h a b c d = grind arith

marked_round :
    (u : Updater) (r : Round)
    → u.redis_exception_happen ≡ true
    → u.update_counter ≤ u.reinit_rate
    → r.on_update_data ≢ fine
    → (round u r).0.redis_exception_happen ≡ true
unfolding round attempt update flag_after
marked_round u r f h w = grind arith

-- A lost connection, seen as a RuntimeError of an update, stays marked while no update returns.
marked_rounds :
    (u : Updater) (rs : List Round)
    → u.redis_exception_happen ≡ true
    → u.update_counter + length rs ≤ suc u.reinit_rate
    → All (λ r. r.on_update_data ≢ fine) rs
    → (run u rs).0.redis_exception_happen ≡ true
unfolding run
marked_rounds u [] f h w = f
marked_rounds u (r ∷ rs) f h (w, ws) =
    let (calls, counter, rate) = quiet_round u r (omega arith) in
    marked_rounds (round u r).0 rs (marked_round u r f (omega arith) w) (omega arith) ws

-- The sleep is at least the frequency less two seconds, and at most two seconds above the greater
-- of the frequency and one minute. With dynamic frequency the sleep is at least 58 seconds, or ten
-- times the execution time is at most the sleep and two seconds. The random part lies between -2
-- and 2.
pub sleep_time_bounds :
    (u : Updater) (r : Round)
    → r.jitter ≤ 4
    → (u.frequency - 2 ≤ sleep_time u r)
      × (sleep_time u r ≤ max u.frequency 60 + 2)
      × ((u.enable_dynamic_frequency ≡ false)
          ⊎ (58 ≤ sleep_time u r)
          ⊎ (r.execution_time * 10 ≤ (sleep_time u r + 2) * 1000000))
unfolding sleep_time
sleep_time_bounds u r j = grind (arith, update_interval_bounds r.execution_time u.frequency)

-- If a round reset the counter but its update lost the connection, and no update returns in the
-- next `reinit_rate + 1` rounds, then the round behind them opens a new connection first. Before
-- that round the connection is not opened again.
pub reconnects :
    (u : Updater) (rs : List Round) (r : Round)
    → u.redis_exception_happen ≡ true
    → u.update_counter ≡ 0
    → length rs ≡ suc u.reinit_rate
    → All (λ s. s.on_update_data ≢ fine) rs
    → r.on_reinit_connection ≡ fine
    → r.on_reinit_data ≡ fine
    → ((run u rs).1 ≡ replicate (length rs) update_data)
      × ((round (run u rs).0 r).1 ≡ reinit_connection ∷ reinit_data ∷ update_data ∷ [])
reconnects u rs r f z full w c d =
    let (calls, due, reset) = reinit_period u rs r z full c d in
    (calls, rw (due, marked_rounds u rs f (omega arith) w) refl)
