-- ===== src/Entity.antt =====
-- The sub-identifiers of the physical entities:
-- src/sonic_ax_impl/mibs/ietf/physical_entity_sub_oid_generator.py.
pub mod Digits
use sonic_snmpagent.Prelude.{
  ℕ, ◌+◌, ◌*◌, List, [], ◌∷◌, Result, ok, err, index_error, ◌>>=◌, ◌==◌, if◌then◌else◌,
}

abbrev pub module_type_multiple : ℕ
module_type_multiple = 100000000

abbrev pub module_index_multiple : ℕ
module_index_multiple = 1000000

abbrev pub module_type_mgmt : ℕ
module_type_mgmt = 2 * module_type_multiple

abbrev pub module_type_fan_drawer : ℕ
module_type_fan_drawer = 5 * module_type_multiple

abbrev pub module_type_psu : ℕ
module_type_psu = 6 * module_type_multiple

abbrev pub module_type_port : ℕ
module_type_port = 1000000000

abbrev pub device_type_multiple : ℕ
device_type_multiple = 10000

abbrev pub device_index_multiple : ℕ
device_index_multiple = 100

abbrev pub device_type_fan : ℕ
device_type_fan = 2 * device_type_multiple

abbrev pub device_type_chassis_thermal : ℕ
device_type_chassis_thermal = 99 * device_type_multiple

abbrev pub device_type_power_monitor : ℕ
device_type_power_monitor = 24 * device_type_multiple

abbrev pub sensor_type_multiple : ℕ
sensor_type_multiple = 10

abbrev pub sensor_type_temp : ℕ
sensor_type_temp = 1 * sensor_type_multiple

abbrev pub sensor_type_fan : ℕ
sensor_type_fan = 2 * sensor_type_multiple

abbrev pub sensor_type_power : ℕ
sensor_type_power = 3 * sensor_type_multiple

abbrev pub sensor_type_current : ℕ
sensor_type_current = 4 * sensor_type_multiple

abbrev pub sensor_type_voltage : ℕ
sensor_type_voltage = 5 * sensor_type_multiple

abbrev pub port_ifindex_multiple : ℕ
port_ifindex_multiple = 100

abbrev pub chassis_sub_id : ℕ
chassis_sub_id = 1

abbrev pub chassis_mgmt_sub_id : ℕ
chassis_mgmt_sub_id = module_type_mgmt

-- The keys of PSU_SENSOR_PART_ID_MAP.
pub data PsuSensor : Type 0 where
  temperature power current voltage : PsuSensor

unfoldable pub psu_sensor_part_id : PsuSensor → ℕ
psu_sensor_part_id temperature = sensor_type_temp
psu_sensor_part_id power = sensor_type_power
psu_sensor_part_id current = sensor_type_current
psu_sensor_part_id voltage = sensor_type_voltage

-- `(x, )`
abbrev pub one : ℕ → List ℕ
one x = x ∷ []

-- `parent_id[0]`
unfoldable pub head : List ℕ → Result ℕ
head [] = err index_error
head (x ∷ xs) = ok x

unfoldable pub get_chassis_thermal_sub_id : ℕ → List ℕ
get_chassis_thermal_sub_id position = one (
    chassis_mgmt_sub_id
    + device_type_chassis_thermal
    + position * device_index_multiple
    + sensor_type_temp)

-- A fan of the chassis itself is put into a fan drawer of the fan's own position.
unfoldable pub get_fan_sub_id : List ℕ → ℕ → Result (List ℕ)
unfolding head
get_fan_sub_id parent_id position = do
  top ← head parent_id
  let parent =
      if top == chassis_sub_id
      then module_type_fan_drawer + position * module_index_multiple
      else top
  ok (one (parent + device_type_fan + position * device_index_multiple))

unfoldable pub get_fan_drawer_sub_id : ℕ → List ℕ
get_fan_drawer_sub_id position = one (module_type_fan_drawer + position * module_index_multiple)

unfoldable pub get_fan_tachometers_sub_id : List ℕ → Result (List ℕ)
unfolding head
get_fan_tachometers_sub_id parent_id = do top ← head parent_id; ok (one (top + sensor_type_fan))

unfoldable pub get_psu_sub_id : ℕ → List ℕ
get_psu_sub_id position = one (module_type_psu + position * module_index_multiple)

unfoldable pub get_psu_sensor_sub_id : List ℕ → PsuSensor → Result (List ℕ)
unfolding head psu_sensor_part_id
get_psu_sensor_sub_id parent_id sensor = do
  top ← head parent_id
  ok (one (top + device_type_power_monitor + psu_sensor_part_id sensor))

unfoldable pub get_transceiver_sub_id : ℕ → List ℕ
get_transceiver_sub_id ifindex = one (module_type_port + ifindex * port_ifindex_multiple)

unfoldable pub get_transceiver_sensor_sub_id : ℕ → ℕ → Result (List ℕ)
unfolding get_transceiver_sub_id head
get_transceiver_sensor_sub_id ifindex offset = do
  transceiver_oid ← head (get_transceiver_sub_id ifindex)
  ok (one (transceiver_oid + offset))
