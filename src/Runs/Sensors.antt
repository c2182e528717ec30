-- ===== src/Runs/Sensors.antt =====
-- Runs of the sensors and of the counters of ifXTable over small databases.
use sonic_snmpagent.Prelude.{
  ap, ◌≢◌, out_of_fuel, Bool, true, ◌*◌, ℤ, ℕ, pos, negsuc, ◌≡◌, ◌≤◌, refl, List, [], ◌∷◌,
  Bool-cases, inl, inr, none, some, ok, ltb, arith, err, false, if◌then◌else◌, All,
}
use sonic_snmpagent.Dict.{list_eq, ◌≟◌, find}
use sonic_snmpagent.Strings.{Text, codes, to_int, starts_with}
use sonic_snmpagent.Order.{In, sorted}
use sonic_snmpagent.Mibs.Effect.{and_then, for_each, with_result}
use sonic_snmpagent.Mibs.Tables.Mgmt.{last_of_split}
use sonic_snmpagent.Mibs.Keys.{transceiver_info_table}
use sonic_snmpagent.Mibs.Rows.{sort_rows, add_row}
use sonic_snmpagent.Entity.{get_transceiver_sensor_sub_id}
use sonic_snmpagent.Mib.Successor.{IsLawful}
use sonic_snmpagent.Mibs.Namespace.{DbConn, dbs_get_all}
use sonic_snmpagent.Mibs.IfMib.{InterfaceMibUpdater, lag_of, get_counter}
use sonic_snmpagent.Mibs.IfMib.Bounds.{Fits, get_counter-Fits}
use sonic_snmpagent.Mibs.IfMib.Fuel.{get_counter_fuel}
use sonic_snmpagent.Mibs.Sensor.{Floats, mib_values, values_of, ok_status, max_value, min_value}
use sonic_snmpagent.Mibs.Sensor.Bounds.{mib_values_range, InRange}
use sonic_snmpagent.Mibs.Sensor.Data.{
  xcvr_temp_sensor, create_sensor_data, transceiver_attrs, match, get_oid_offset,
}
use sonic_snmpagent.Mibs.Sensor.Sources.{SensorUpdater}
use sonic_snmpagent.Mibs.Sensor.Update
use sonic_snmpagent.Mibs.Sensor.Columns.{ent_phy_sensor_value}
use sonic_snmpagent.Mibs.Sensor.Table.{sensor_value-IsLawful}
use sonic_snmpagent.Runs.Mibs.{ports}

-- Natural numbers in place of floats, as far as they are scaled and compared.
abbrev mul : ℕ → ℤ → ℕ
mul x (pos n) = x * n
mul x (negsuc n) = 0

abbrev greater : ℕ → ℤ → Bool
greater x (pos n) = ltb n x
greater x (negsuc n) = true

abbrev less : ℕ → ℤ → Bool
less x (pos n) = ltb x n
less x (negsuc n) = false

abbrev floats : Floats
floats = record {
  Float = ℕ;
  parse = λ text. elim (to_int text) [ ok n ↦ some n | err e ↦ none ];
  mul = mul;
  div = λ x n. x;
  power = λ n x. none;
  greater = greater;
  less = less;
  round = λ x. some (pos x);
}

round_bounds :
    (x : ℕ) (v : ℤ)
    → floats.greater x max_value ≡ false
    → floats.less x min_value ≡ false
    → floats.round x ≡ some v
    → InRange v
round_bounds x (pos n) a b h =
    let e : x ≡ n = cc (ap (λ o. elim o as (λ y. ℕ) [ none ↦ 0 | some y ↦ magnitude y ]) h) in
    rw (← e) (below x a)
  where
    magnitude : ℤ → ℕ
    magnitude (pos m) = m
    magnitude (negsuc m) = m

    below : (m : ℕ) → ltb 1000000000 m ≡ false → m ≤ 1000000000
    below m q = ground arith
round_bounds x (negsuc n) a b h = absurd cc

mib_values_range_example : InRange (pos 31000000)
unfolding mib_values to_int values_of
mib_values_range_example =
    mib_values_range floats round_bounds xcvr_temp_sensor (codes "31")
      (values_of xcvr_temp_sensor ok_status (pos 31000000)) refl

-- A transceiver with its temperature.
abbrev dom : Text
dom = codes "TRANSCEIVER_DOM_SENSOR|Ethernet0"

abbrev sensor_db : DbConn
sensor_db = record {
  namespace = [];
  keys = λ db pattern. none;
  get_all = λ db key.
      if key ≟ dom
      then some ((codes "temperature", codes "31") ∷ [])
      else some ((codes "type", codes "SFP") ∷ []);
}

abbrev sensors : SensorUpdater
sensors = record {
  statedb = sensor_db ∷ [];
  rows = record { value_map = []; sub_ids = [] };
  transceiver_dom = dom ∷ [];
  fan_sensor = [];
  psu_sensor = [];
  thermal_sensor = [];
  broken_transceiver_info = [];
}

abbrev sensors' : SensorUpdater
sensors' = record sensors {
  rows = record {
    value_map = (1000000110 ∷ [], values_of xcvr_temp_sensor ok_status (pos 31000000)) ∷ [];
    sub_ids = (1000000110 ∷ []) ∷ [];
  };
}

sensors_run : Update.update_data floats ports sensors ≡ (ok tt, sensors')
unfolding Update.update_data and_then for_each last_of_split starts_with dbs_get_all
    transceiver_info_table create_sensor_data transceiver_attrs match with_result get_oid_offset
    get_transceiver_sensor_sub_id mib_values to_int sort_rows add_row sorted values_of
sensors_run = refl

sensor_value-IsLawful_example :
    IsLawful (ent_phy_sensor_value sensors' (1 ∷ 3 ∷ []) 2) (λ k. In k sensors'.rows.sub_ids)
sensor_value-IsLawful_example =
    sensor_value-IsLawful floats ports sensors sensors' (1 ∷ 3 ∷ []) 2 sensors_run

-- A LAG of one port.
abbrev if_db : DbConn
if_db = record { namespace = []; keys = λ db pattern. none; get_all = λ db key. none }

abbrev if_mib : InterfaceMibUpdater
if_mib = record {
  db_conn = if_db ∷ [];
  lag_name_if_name_map = (codes "PortChannel1", codes "Ethernet0" ∷ []) ∷ [];
  oid_lag_name_map = (1001, codes "PortChannel1") ∷ [];
  mgmt_oid_name_map = [];
  mgmt_alias_map = [];
  vlan_oid_name_map = [];
  if_counters = (some 1, (codes "SAI_PORT_STAT_IF_IN_OCTETS", codes "7") ∷ []) ∷ [];
  if_range = (1 ∷ []) ∷ (1001 ∷ []) ∷ [];
  if_alias_map = [];
  if_id_map = [];
  oid_name_map = (1, codes "Ethernet0") ∷ [];
}

one_port :
    (lag_name : Text) (members : List Text)
    → find lag_name if_mib.lag_name_if_name_map ≡ some members
    → All (λ m. lag_of if_mib (ports.get_index_from_str m) ≡ none) members
unfolding lag_of
one_port lag_name members h = elim (Bool-cases (lag_name ≟ codes "PortChannel1")) [
  | inl e ↦ let m : codes "Ethernet0" ∷ [] ≡ members = cc in rw (← m) (refl, tt)
  | inr e ↦ absurd (cc)
]

get_counter_fuel_example :
    (get_counter ports if_mib 64 (codes "SAI_PORT_STAT_IF_IN_OCTETS") 9 (some 1001)
      ≡ get_counter ports if_mib 64 (codes "SAI_PORT_STAT_IF_IN_OCTETS") 2 (some 1001))
    × (get_counter ports if_mib 64 (codes "SAI_PORT_STAT_IF_IN_OCTETS") 9 (some 1001)
        ≢ err out_of_fuel)
get_counter_fuel_example =
    get_counter_fuel ports if_mib 64 (codes "SAI_PORT_STAT_IF_IN_OCTETS") 7 (some 1001) one_port

get_counter-Fits_example :
    Fits 64 (get_counter ports if_mib 64 (codes "SAI_PORT_STAT_IF_IN_OCTETS") 2 (some 1001))
get_counter-Fits_example =
    get_counter-Fits ports if_mib 64 (codes "SAI_PORT_STAT_IF_IN_OCTETS") 2 (some 1001)
