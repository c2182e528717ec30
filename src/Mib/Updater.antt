-- ===== src/Mib/Updater.antt =====
-- The class MIBUpdater of src/ax_interface/mib.py: the loop of `start`.
pub mod Cadence
use sonic_snmpagent.Prelude.{
  ℕ, suc, ◌+◌, ◌-◌, List, [], ◌∷◌, ◌++◌, Bool, true, false, ltb, if◌then◌else◌,
}
use sonic_snmpagent.Util.{get_next_update_interval}

-- How a call of a method that the MIBs override ends: it returns, raises RuntimeError, or raises
-- another exception.
pub data Ending : Type 0 where
  fine runtime_error other_error : Ending

-- The methods that `start` calls.
pub data Call : Type 0 where
  reinit_connection reinit_data update_data : Call

-- The attributes that `start` uses, with its local `redis_exception_happen`.
pub record Updater : Type 0 where
  pub frequency : ℕ
  pub enable_dynamic_frequency : Bool
  pub reinit_rate : ℕ
  pub update_counter : ℕ
  pub redis_exception_happen : Bool

-- `__init__`, then the first line of `start`: DEFAULT_UPDATE_FREQUENCY is 5, DEFAULT_REINIT_RATE 60.
abbrev pub init : Updater
init = record {
  frequency = 5;
  enable_dynamic_frequency = false;
  reinit_rate = 12;
  update_counter = 13;
  redis_exception_happen = false;
}

-- What one round meets: how each method would end if it is called, the execution time in
-- microseconds, and `random.randint(-2, 2) + 2`.
pub record Round : Type 0 where
  pub on_reinit_connection : Ending
  pub on_reinit_data : Ending
  pub on_update_data : Ending
  pub execution_time : ℕ
  pub jitter : ℕ

-- Where the body of `try` stands after some calls: the counter, the calls, and the ending.
pub record Body : Type 0 where
  pub counter : ℕ
  pub calls : List Call
  pub ending : Ending

-- A call, and the rest of the body if it returns.
unfoldable pub and_then : ℕ → Call → Ending → Body → Body
and_then counter c fine rest = record {
  counter = rest.counter;
  calls = c ∷ rest.calls;
  ending = rest.ending;
}
and_then counter c runtime_error rest = record {
  counter = counter;
  calls = c ∷ [];
  ending = runtime_error;
}
and_then counter c other_error rest = record {
  counter = counter;
  calls = c ∷ [];
  ending = other_error;
}

unfoldable pub update : ℕ → Round → Body
update counter r = record { counter = counter; calls = update_data ∷ []; ending = r.on_update_data }

-- The body of `try`.
unfoldable pub attempt : Updater → Round → Body
unfolding and_then update
attempt u r =
    let n = u.update_counter in
    let reinit = and_then n reinit_data r.on_reinit_data (update 0 r) in
    if ltb u.reinit_rate n
    then (if u.redis_exception_happen
        then and_then n reinit_connection r.on_reinit_connection reinit
        else reinit)
    else update (suc n) r

-- The flag after the `try` statement.
unfoldable pub flag_after : Ending → Bool → Bool
flag_after fine flag = false
flag_after runtime_error flag = true
flag_after other_error flag = flag

-- One round of the loop up to its `await`: the updater after it and the calls it made.
unfoldable pub round : Updater → Round → Updater × List Call
unfolding attempt flag_after
round u r =
    let b = attempt u r in
    (
      record {
        frequency = u.frequency;
        enable_dynamic_frequency = u.enable_dynamic_frequency;
        reinit_rate = u.reinit_rate;
        update_counter = b.counter;
        redis_exception_happen = flag_after b.ending u.redis_exception_happen;
      },
      b.calls,
    )

-- The seconds of the sleep that ends the round; a negative sleep is none.
unfoldable pub sleep_time : Updater → Round → ℕ
sleep_time u r =
    let next_frequency =
      if u.enable_dynamic_frequency
      then get_next_update_interval r.execution_time u.frequency
      else u.frequency in
    next_frequency + r.jitter - 2

-- The loop over the rounds that find the run event set.
unfoldable pub run : Updater → List Round → Updater × List Call
unfolding round
run u [] = (u, [])
run u (r ∷ rs) =
    let (u', calls) = round u r in let (u'', later) = run u' rs in (u'', calls ++ later)
