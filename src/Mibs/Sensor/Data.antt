-- ===== src/Mibs/Sensor/Data.antt =====
-- src/sonic_ax_impl/mibs/ietf/sensor_data.py, with the sensor classes of rfc3433.py that are bound to
-- its entries.
use sonic_snmpagent.Prelude.{
  ℕ, ◌+◌, ◌*◌, List, [], ◌∷◌, ◌++◌, length, drop, Option, none, some, Result, ok, ◌>>=◌, true,
  false, if◌then◌else◌,
}
use sonic_snmpagent.Util.Text.{is_digit}
use sonic_snmpagent.Entity.{
  sensor_type_temp, sensor_type_fan, sensor_type_power, sensor_type_current, sensor_type_voltage,
  sensor_type_multiple,
}
use sonic_snmpagent.Dict.{Dict, ◌≟◌, list_eq}
use sonic_snmpagent.Strings.{Text, codes, starts_with, to_int}
use sonic_snmpagent.Mibs.Sensor.{
  SensorInterface, celsius, volts_dc, watts, amperes, unknown, units, milli,
}

abbrev pub sensor_type_port_tx_power : ℕ
sensor_type_port_tx_power = 2 * sensor_type_multiple

abbrev pub sensor_type_port_rx_power : ℕ
sensor_type_port_rx_power = 3 * sensor_type_multiple

abbrev pub sensor_type_port_tx_bias : ℕ
sensor_type_port_tx_bias = 4 * sensor_type_multiple

-- `lane start end` is the pattern of digits between two texts; its group 1 is the digits.
pub data Pattern : Type 0 where
  plain : Text → Pattern
  lane : Text → Text → Pattern

-- An entry of `sensor_attr_dict`. `lane_based_sensor` is set where the pattern has a group.
pub record SensorAttrs : Type 0 where
  pub pattern : Pattern
  pub name : Text
  pub oid_offset_base : ℕ
  pub sort_factor : ℕ
  pub sensor_interface : SensorInterface

-- A matched field, with group 1 of the match.
pub record SensorData : Type 0 where
  pub key : Text
  pub value : Text
  pub sensor_attrs : SensorAttrs
  pub group : Option Text

unfoldable pub span_digits : Text → Text × Text
span_digits [] = ([], [])
span_digits (c ∷ text) =
    let (digits, rest) = span_digits text in
    if is_digit c then (c ∷ digits, rest) else ([], c ∷ text)

-- The pattern behind the digits stands at the start of the rest.
unfoldable pub match_end : Text → Text × Text → Option (Option Text)
match_end end ([], rest) = none
match_end end (d ∷ digits, rest) = if starts_with end rest then some (some (d ∷ digits)) else none

-- `re.match`: at the start of the name.
unfoldable pub match : Pattern → Text → Option (Option Text)
unfolding match_end span_digits
match (plain text) name = if starts_with text name then some none else none
match (lane start end) name =
    if starts_with start name then match_end end (span_digits (drop (length start) name)) else none

-- `re.fullmatch` with a plain pattern; the other patterns are not used so.
unfoldable pub fullmatch : Pattern → Text → Option (Option Text)
fullmatch (plain text) name = if name ≟ text then some none else none
fullmatch (lane start end) name = none

unfoldable pub add_match :
    Text → Text → SensorAttrs → Option (Option Text) → List SensorData → List SensorData
add_match key value attrs none more = more
add_match key value attrs (some group) more =
    record { key = key; value = value; sensor_attrs = attrs; group = group } ∷ more

-- The entries that match one field.
unfoldable pub matches :
    (Pattern → Text → Option (Option Text)) → Text → Text → List SensorAttrs → List SensorData
unfolding add_match
matches test key value [] = []
matches test key value (attrs ∷ more) =
    add_match key value attrs (test attrs.pattern key) (matches test key value more)

unfoldable pub create_sensor_data :
    (Pattern → Text → Option (Option Text)) → List SensorAttrs → Dict Text Text → List SensorData
unfolding matches
create_sensor_data test attrs [] = []
create_sensor_data test attrs ((name, value) ∷ fields) =
    matches test name value attrs ++ create_sensor_data test attrs fields

-- `int(group(1))`, or 0 without a lane.
unfoldable pub lane_number : Option Text → Result ℕ
lane_number none = ok 0
lane_number (some digits) = to_int digits

unfoldable pub get_oid_offset : SensorData → Result ℕ
unfolding lane_number
get_oid_offset d = do n ← lane_number d.group; ok (d.sensor_attrs.oid_offset_base + n)

unfoldable pub get_sort_factor : SensorData → Result ℕ
unfolding lane_number
get_sort_factor d = do n ← lane_number d.group; ok (d.sensor_attrs.sort_factor + n)

abbrev pub xcvr_temp_sensor : SensorInterface
xcvr_temp_sensor = record { type_ = celsius; scale = units; precision = 6; converter = false }

abbrev pub xcvr_voltage_sensor : SensorInterface
xcvr_voltage_sensor = record { type_ = volts_dc; scale = units; precision = 4; converter = false }

abbrev pub xcvr_rx_power_sensor : SensorInterface
xcvr_rx_power_sensor = record { type_ = watts; scale = milli; precision = 4; converter = true }

abbrev pub xcvr_tx_bias_sensor : SensorInterface
xcvr_tx_bias_sensor = record { type_ = amperes; scale = milli; precision = 3; converter = false }

abbrev pub xcvr_tx_power_sensor : SensorInterface
xcvr_tx_power_sensor = record { type_ = watts; scale = milli; precision = 4; converter = true }

abbrev pub psu_temp_sensor : SensorInterface
psu_temp_sensor = record { type_ = celsius; scale = units; precision = 3; converter = false }

abbrev pub psu_voltage_sensor : SensorInterface
psu_voltage_sensor = record { type_ = volts_dc; scale = units; precision = 3; converter = false }

abbrev pub psu_current_sensor : SensorInterface
psu_current_sensor = record { type_ = amperes; scale = units; precision = 3; converter = false }

abbrev pub psu_power_sensor : SensorInterface
psu_power_sensor = record { type_ = watts; scale = units; precision = 3; converter = false }

abbrev pub fan_speed_sensor : SensorInterface
fan_speed_sensor = record { type_ = unknown; scale = units; precision = 0; converter = false }

abbrev pub thermal_sensor : SensorInterface
thermal_sensor = record { type_ = celsius; scale = units; precision = 3; converter = false }

abbrev attrs_of : Pattern → Text → ℕ → ℕ → SensorInterface → SensorAttrs
attrs_of pattern name base factor cls = record {
  pattern = pattern;
  name = name;
  oid_offset_base = base;
  sort_factor = factor;
  sensor_interface = cls;
}

unfoldable pub transceiver_attrs : List SensorAttrs
transceiver_attrs =
    attrs_of (plain (codes "temperature")) (codes "Temperature") sensor_type_temp 0 xcvr_temp_sensor
    ∷ attrs_of (plain (codes "voltage")) (codes "Voltage") sensor_type_voltage 9000
        xcvr_voltage_sensor
    ∷ attrs_of (lane (codes "rx") (codes "power")) (codes "RX Power") sensor_type_port_rx_power 2000
        xcvr_rx_power_sensor
    ∷ attrs_of (lane (codes "tx") (codes "power")) (codes "TX Power") sensor_type_port_tx_power 1000
        xcvr_tx_power_sensor
    ∷ attrs_of (lane (codes "tx") (codes "bias")) (codes "TX Bias") sensor_type_port_tx_bias 3000
        xcvr_tx_bias_sensor
    ∷ []

unfoldable pub psu_attrs : List SensorAttrs
psu_attrs =
    attrs_of (plain (codes "temp")) (codes "Temperature") sensor_type_temp 0 psu_temp_sensor
    ∷ attrs_of (plain (codes "voltage")) (codes "Voltage") sensor_type_voltage 9000
        psu_voltage_sensor
    ∷ attrs_of (plain (codes "power")) (codes "Power") sensor_type_power 2000 psu_power_sensor
    ∷ attrs_of (plain (codes "current")) (codes "Current") sensor_type_current 1000
        psu_current_sensor
    ∷ []

unfoldable pub fan_attrs : List SensorAttrs
fan_attrs = attrs_of (plain (codes "speed")) (codes "Speed") sensor_type_fan 0 fan_speed_sensor ∷ []

unfoldable pub thermal_attrs : List SensorAttrs
thermal_attrs =
    attrs_of (plain (codes "temperature")) (codes "Temperature") sensor_type_temp 0 thermal_sensor
    ∷ []
