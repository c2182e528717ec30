-- ===== src/Entity/Digits.antt =====
-- The decimal digits of the sub-identifiers, against the layout that
-- physical_entity_sub_oid_generator.py documents at its top.
use sonic_snmpagent.Prelude.{
  ℕ, ◌+◌, ◌*◌, ◌/◌, ◌%◌, ◌<◌, ◌≡◌, refl, arith, List, [], ◌∷◌, Result, ok, ◌>>=◌,
}
use sonic_snmpagent.Entity.{
  one, PsuSensor, temperature, power, current, voltage, psu_sensor_part_id, get_fan_sub_id,
  get_fan_drawer_sub_id, get_fan_tachometers_sub_id, get_psu_sub_id, get_psu_sensor_sub_id,
  get_transceiver_sub_id, get_transceiver_sensor_sub_id, head,
}

-- The fields of the documented layout.
pub record Layers : Type 0 where
  pub module_type : ℕ
  pub module_index : ℕ
  pub device_type : ℕ
  pub device_index : ℕ
  pub sensor_type : ℕ
  pub sensor_index : ℕ

-- The fields are what the digits of the number spell.
abbrev pub HasDigits : ℕ → Layers → Type 0
HasDigits n l =
    (n / 100000000 ≡ l.module_type)
    × (n / 1000000 % 100 ≡ l.module_index)
    × (n / 10000 % 100 ≡ l.device_type)
    × (n / 100 % 100 ≡ l.device_index)
    × (n / 10 % 10 ≡ l.sensor_type)
    × (n % 10 ≡ l.sensor_index)

abbrev pub Spells : Result (List ℕ) → Layers → Type 0
Spells r l = (n : ℕ) × (r ≡ ok (n ∷ [])) × HasDigits n l

-- The documented digit of a sensor of a PSU.
unfoldable pub psu_sensor_type : PsuSensor → ℕ
psu_sensor_type temperature = 1
psu_sensor_type power = 3
psu_sensor_type current = 4
psu_sensor_type voltage = 5

drawer_fan :
    (drawer position : ℕ)
    → get_fan_sub_id (get_fan_drawer_sub_id drawer) position
      ≡ ok (one (500000000 + drawer * 1000000 + 20000 + position * 100))
unfolding get_fan_sub_id get_fan_drawer_sub_id head
drawer_fan drawer position = grind arith

-- A fan of a drawer has the digits of its drawer, of the device type fan and of its position, and
-- its tachometer has the sensor digits of fan tachometers besides, for indices below 100.
pub fan_digits :
    (drawer position : ℕ)
    → drawer < 100
    → position < 100
    → Spells (get_fan_sub_id (get_fan_drawer_sub_id drawer) position) (record {
      module_type = 5;
      module_index = drawer;
      device_type = 2;
      device_index = position;
      sensor_type = 0;
      sensor_index = 0;
    })
      × Spells
          (do
            fan ← get_fan_sub_id (get_fan_drawer_sub_id drawer) position
            get_fan_tachometers_sub_id fan)
          (record {
            module_type = 5;
            module_index = drawer;
            device_type = 2;
            device_index = position;
            sensor_type = 2;
            sensor_index = 0;
          })
unfolding get_fan_tachometers_sub_id head
fan_digits drawer position d p = (
  (_, drawer_fan drawer position, omega arith),
  (
    500000000 + drawer * 1000000 + 20000 + position * 100 + 20,
    rw (drawer_fan drawer position) refl,
    omega arith,
  ),
)

-- A sensor of a PSU has the digits of its PSU, of the device type power monitor and of its sensor
-- type, for PSU numbers below 100.
pub psu_sensor_digits :
    (position : ℕ) (sensor : PsuSensor)
    → position < 100
    → Spells (get_psu_sensor_sub_id (get_psu_sub_id position) sensor) (record {
      module_type = 6;
      module_index = position;
      device_type = 24;
      device_index = 0;
      sensor_type = psu_sensor_type sensor;
      sensor_index = 0;
    })
unfolding get_psu_sensor_sub_id get_psu_sub_id head psu_sensor_part_id psu_sensor_type
psu_sensor_digits position temperature h = (_, refl, omega arith)
psu_sensor_digits position power h = (_, refl, omega arith)
psu_sensor_digits position current h = (_, refl, omega arith)
psu_sensor_digits position voltage h = (_, refl, omega arith)

-- Two sensors of transceivers that share a sub-identifier are the same sensor of the same
-- interface, for sensor offsets below 100.
pub transceiver_distinct :
    (i j x y : ℕ)
    → x < 100
    → y < 100
    → get_transceiver_sensor_sub_id i x ≡ get_transceiver_sensor_sub_id j y
    → (i ≡ j) × (x ≡ y)
unfolding get_transceiver_sensor_sub_id get_transceiver_sub_id head
transceiver_distinct i j x y a b e = grind arith

-- A fan of the chassis itself gets the number of the fan at its own position in the drawer of that
-- position.
pub chassis_fan_collides :
    (position : ℕ)
    → get_fan_sub_id (1 ∷ []) position ≡ get_fan_sub_id (get_fan_drawer_sub_id position) position
unfolding get_fan_sub_id get_fan_drawer_sub_id head
chassis_fan_collides position = grind arith
