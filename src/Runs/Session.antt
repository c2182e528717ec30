-- ===== src/Runs/Session.antt =====
-- Runs of the session, of the updaters and of the classes of MIBs.
use sonic_snmpagent.Prelude.{
  ℕ, ◌+◌, ◌-◌, ◌*◌, ◌≤◌, ◌≡◌, ◌⊎◌, inl, false, refl, arith, List, [], ◌∷◌, ◌++◌, length, replicate,
  ok, some, Bool, true, pos, if◌then◌else◌,
}
use Prim.Native.Nat.{max}
use sonic_snmpagent.Constants.{integer}
use sonic_snmpagent.Struct.{pack, pack_longs}
use sonic_snmpagent.Util.Text.{split}
use sonic_snmpagent.Encodings.Oid
use sonic_snmpagent.Encodings.Value.{int}
use sonic_snmpagent.Mib.Entry.{MibEntry, scalar}
use sonic_snmpagent.Mib.Table.{MibTable, lookup}
use sonic_snmpagent.Mib.Meta.{MibClass, entry, new_class, table_of}
use sonic_snmpagent.Mib.Meta.Complete.{IsComplete, new_class-IsComplete}
use sonic_snmpagent.Mib.Updater.{
  Updater, Round, fine, runtime_error, reinit_connection, reinit_data, update_data, round, run,
  sleep_time,
}
use sonic_snmpagent.Mib.Updater.Cadence.{reinit_period, reinit_retries, sleep_time_bounds}
use sonic_snmpagent.Pdu.Header
use sonic_snmpagent.Pdu.Header.{PduHeader}
use sonic_snmpagent.Pdu.Codec.{encode}
use sonic_snmpagent.Pdu.Make.{new_register}
use sonic_snmpagent.Protocol.{
  AgentX, init, parse_response, handle_stream, data_received, register_pdu,
}
use sonic_snmpagent.Protocol.Session.{IsLater, data_received-IsLater}
use sonic_snmpagent.Protocol.Registration.{registrations, parse_response_starts, AreRegistrations}
use sonic_snmpagent.Protocol.Stream.{Handles, handle_stream_fuel}

abbrev one_scalar : MibTable
one_scalar = record {
  entries =
      (
        1 ∷ 5 ∷ [],
        record {
          value_type = integer;
          subtree = [];
          prefix = 1 ∷ 5 ∷ [];
          prefixlen = 2;
          handler = scalar (ok (some (int (pos 50))));
        },
      )
      ∷ [];
  prefixes = (1 ∷ 5 ∷ []) ∷ [];
}

abbrev connected : AgentX
connected = record init { transport = true }

-- The response to Open that starts session 9.
abbrev response_header : PduHeader
response_header = record {
  version = 1;
  type_ = 18;
  flags = 16;
  reserved = 0;
  session_id = 9;
  transaction_id = 0;
  packet_id = 0;
  payload_length = 8;
}

-- A Register PDU for 1.5 with priority 0.
abbrev registration : List ℕ
registration =
    1 ∷ 3 ∷ 16 ∷ 0 ∷ 0 ∷ 0 ∷ 0 ∷ 9 ∷ 0 ∷ 0 ∷ 0 ∷ 0 ∷ 0 ∷ 0 ∷ 0 ∷ 0 ∷ 0 ∷ 0 ∷ 0 ∷ 16 ∷ 5 ∷ 0 ∷ 0 ∷ 0
    ∷ 2 ∷ 0 ∷ 0 ∷ 0 ∷ 0 ∷ 0 ∷ 0 ∷ 1 ∷ 0 ∷ 0 ∷ 0 ∷ 5 ∷ []

-- One for 1.6 with priority 1.
abbrev registration' : List ℕ
registration' =
    1 ∷ 3 ∷ 16 ∷ 0 ∷ 0 ∷ 0 ∷ 0 ∷ 9 ∷ 0 ∷ 0 ∷ 0 ∷ 0 ∷ 0 ∷ 0 ∷ 0 ∷ 0 ∷ 0 ∷ 0 ∷ 0 ∷ 16 ∷ 5 ∷ 1 ∷ 0 ∷ 0
    ∷ 2 ∷ 0 ∷ 0 ∷ 0 ∷ 0 ∷ 0 ∷ 0 ∷ 1 ∷ 0 ∷ 0 ∷ 0 ∷ 6 ∷ []

abbrev two_scalars : MibTable
two_scalars = record { entries = []; prefixes = (1 ∷ 5 ∷ []) ∷ (1 ∷ 6 ∷ []) ∷ [] }

parse_response_starts_example :
    (parse_response two_scalars response_header 0 connected
      ≡ (ok tt, record connected { session_id = some 9; sent = registration ∷ registration' ∷ [] }))
    × AreRegistrations response_header 0 two_scalars.prefixes (registration ∷ registration' ∷ [])
unfolding registrations register_pdu Oid.from_iterable new_register encode Header.to_bytes
    Header.endianness Header.flag_non_default_context Header.has_flag pack pack_longs Oid.to_bytes
parse_response_starts_example =
    parse_response_starts two_scalars response_header connected (registration ∷ registration' ∷ [])
      refl refl refl

-- The bytes of that response, received.
abbrev response_bytes : List ℕ
response_bytes =
    1 ∷ 18 ∷ 16 ∷ 0 ∷ 0 ∷ 0 ∷ 0 ∷ 9 ∷ 0 ∷ 0 ∷ 0 ∷ 0 ∷ 0 ∷ 0 ∷ 0 ∷ 0 ∷ 0 ∷ 0 ∷ 0 ∷ 8 ∷ 0 ∷ 0 ∷ 0 ∷ 0
    ∷ 0 ∷ 0 ∷ 0 ∷ 0 ∷ []

data_received-IsLater_example :
    IsLater
      (record connected { counter = 0 + 1 })
      (data_received one_scalar response_bytes connected)
data_received-IsLater_example = data_received-IsLater one_scalar response_bytes connected

handle_stream_fuel_example :
    Handles one_scalar response_bytes connected
      (handle_stream 40 one_scalar response_bytes connected)
    × (handle_stream 40 one_scalar response_bytes connected
        ≡ handle_stream (length response_bytes) one_scalar response_bytes connected)
handle_stream_fuel_example = handle_stream_fuel 40 one_scalar response_bytes connected (omega arith)

-- An updater that has just been reset, with a rate of one round.
abbrev reset : Updater
reset = record {
  frequency = 5;
  enable_dynamic_frequency = true;
  reinit_rate = 1;
  update_counter = 0;
  redis_exception_happen = true;
}

abbrev failing : Round
failing = record {
  on_reinit_connection = fine;
  on_reinit_data = runtime_error;
  on_update_data = runtime_error;
  execution_time = 870000;
  jitter = 4;
}

abbrev returning : Round
returning = record {
  on_reinit_connection = fine;
  on_reinit_data = fine;
  on_update_data = fine;
  execution_time = 870000;
  jitter = 0;
}

reinit_period_example :
    ((run reset (failing ∷ returning ∷ [])).1 ≡ replicate 2 update_data)
    × ((round (run reset (failing ∷ returning ∷ [])).0 returning).1
        ≡ (if (run reset (failing ∷ returning ∷ [])).0.redis_exception_happen
            then reinit_connection ∷ []
            else [])
          ++ (reinit_data ∷ update_data ∷ []))
    × ((round (run reset (failing ∷ returning ∷ [])).0 returning).0.update_counter ≡ 0)
reinit_period_example = reinit_period reset (failing ∷ returning ∷ []) returning refl refl refl refl

abbrev due : Updater
due = record reset { update_counter = 2 }

reinit_retries_example :
    (run due (failing ∷ returning ∷ [])).1
    ≡ (reinit_connection ∷ []) ++ (reinit_data ∷ reinit_connection ∷ reinit_data ∷ update_data ∷ [])
reinit_retries_example = reinit_retries due failing returning (omega arith) refl refl refl refl

sleep_time_bounds_example :
    (5 - 2 ≤ sleep_time reset failing)
    × (sleep_time reset failing ≤ max 5 60 + 2)
    × ((◌≡◌ {A = Bool} true false)
        ⊎ (58 ≤ sleep_time reset failing)
        ⊎ (870000 * 10 ≤ (sleep_time reset failing + 2) * 1000000))
sleep_time_bounds_example = sleep_time_bounds reset failing (omega arith)

-- The class of the scalar 5 under the prefix ".1".
abbrev scalar_5 : MibEntry
scalar_5 = record {
  value_type = integer;
  subtree = 5 ∷ [];
  prefix = [];
  prefixlen = 0;
  handler = scalar (ok (some (int (pos 50))));
}

abbrev scalar_class : MibClass
scalar_class = record {
  sub_ids = (1 ∷ 5 ∷ [], record scalar_5 { prefix = 1 ∷ 5 ∷ []; prefixlen = 2 }) ∷ [];
  prefixes = (1 ∷ 5 ∷ []) ∷ [];
  updaters = [];
}

new_class-IsComplete_example :
    IsComplete scalar_class
    × ((e : MibEntry) × (lookup (1 ∷ 5 ∷ []) (table_of scalar_class).entries ≡ some e)
        × (e.prefix ≡ 1 ∷ 5 ∷ [])
        × (e.prefixlen ≡ 2))
unfolding new_class split table_of
new_class-IsComplete_example =
    new_class-IsComplete (some (46 ∷ 49 ∷ [])) (entry scalar_5 ∷ []) [] scalar_class (1 ∷ 5 ∷ []) tt
      refl (inl refl)
