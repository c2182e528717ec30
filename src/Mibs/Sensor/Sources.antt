-- ===== src/Mibs/Sensor/Sources.antt =====
-- src/sonic_ax_impl/mibs/ietf/rfc3433.py: PhysicalSensorTableMIBUpdater, its state, the
-- transceivers and the PSUs.
use sonic_snmpagent.Prelude.{
  ℕ, List, [], ◌∷◌, ◌++◌, Option, none, some, Result, ok, err, key_error, attribute_error, ◌>>=◌,
  Bool, false, ◌&&◌, ◌||◌, leb, ◌+◌, if◌then◌else◌,
}
use sonic_snmpagent.Entity.{
  PsuSensor, temperature, power, current, voltage, get_transceiver_sensor_sub_id, get_psu_sub_id,
  get_psu_sensor_sub_id,
}
use sonic_snmpagent.Dict.{Dict, ◌≟◌, find, list_eq}
use sonic_snmpagent.Strings.{Text, codes, vbar, starts_with, to_int}
use sonic_snmpagent.Mibs.Effect.{Effect, with_result, for_each}
use sonic_snmpagent.Mibs.Keys.{
  state_db, transceiver_info_table, transceiver_dom_table, psu_info_table, fan_info_table,
  thermal_info_table, physical_entity_info_table,
}
use sonic_snmpagent.Mibs.Namespace.{DbConn, dbs_keys, dbs_get_all, or_empty}
use sonic_snmpagent.Mibs.PortUtil.{PortUtil}
use sonic_snmpagent.Mibs.Rows.{Rows, add_row, item_at}
use sonic_snmpagent.Mibs.Tables.Mgmt.{last_of_split}
use sonic_snmpagent.Mibs.Sensor.{Floats, MibValues, mib_values}
use sonic_snmpagent.Mibs.Sensor.Data.{
  SensorData, create_sensor_data, match, fullmatch, get_oid_offset, transceiver_attrs, psu_attrs,
}

-- `rows` holds the five maps of the values, which have the same keys, and `sub_ids`.
pub record SensorUpdater : Type 0 where
  pub statedb : List DbConn
  pub rows : Rows MibValues
  pub transceiver_dom : List Text
  pub fan_sensor : List Text
  pub psu_sensor : List Text
  pub thermal_sensor : List Text
  pub broken_transceiver_info : List Text

-- A list that is not found keeps the one before.
unfoldable pub or_old : List Text → List Text → List Text
or_old old [] = old
or_old old (x ∷ xs) = x ∷ xs

unfoldable pub reinit_lists : DbConn → SensorUpdater → Effect SensorUpdater
unfolding or_old or_empty
reinit_lists host u = (
  ok tt,
  record u {
    fan_sensor = or_old u.fan_sensor (or_empty (host.keys state_db (fan_info_table (codes "*"))));
    psu_sensor = or_old u.psu_sensor (or_empty (host.keys state_db (psu_info_table (codes "*"))));
    thermal_sensor =
        or_old u.thermal_sensor (or_empty (host.keys state_db (thermal_info_table (codes "*"))));
  },
)

unfoldable pub reinit_data : SensorUpdater → Effect SensorUpdater
unfolding reinit_lists or_old
reinit_data u =
    let u' = record u {
      rows = record { value_map = []; sub_ids = u.rows.sub_ids };
      transceiver_dom =
          or_old u.transceiver_dom
            (dbs_keys u.statedb state_db (transceiver_dom_table (codes "*")));
    } in
    with_result (item_at u'.statedb 0) u' (λ host. reinit_lists host u')

unfoldable pub is_null_empty_str : Text → Bool
is_null_empty_str value = value ≟ codes "N/A" || (value ≟ codes "None" || value ≟ [])

-- `position_in_parent` and `parent_name`; `None` has no `get`.
unfoldable pub text_or_empty : Option Text → Text
text_or_empty none = []
text_or_empty (some text) = text

unfoldable pub get_db_data : Option (Dict Text Text) → Result (Text × Text)
unfolding text_or_empty
get_db_data none = err attribute_error
get_db_data (some info) = ok (
  text_or_empty (find (codes "position_in_parent") info),
  text_or_empty (find (codes "parent_name") info),
)

-- `text in other`
unfoldable pub is_part : Text → Text → Bool
is_part text [] = starts_with text []
is_part text (c ∷ other) = starts_with text (c ∷ other) || is_part text other

-- `text.lower()` of ASCII letters
unfoldable pub lower_char : ℕ → ℕ
lower_char c = if leb 65 c && leb c 90 then c + 32 else c

unfoldable pub lower : Text → Text
unfolding lower_char
lower [] = []
lower (c ∷ text) = lower_char c ∷ lower text

-- The key of PSU_SENSOR_PART_ID_MAP.
unfoldable pub psu_part : Text → Result PsuSensor
psu_part name =
    if name ≟ codes "temperature"
    then ok temperature
    else if name ≟ codes "power"
    then ok power
    else if name ≟ codes "current"
    then ok current
    else if name ≟ codes "voltage"
    then ok voltage
    else err key_error

-- A value that cannot be converted is left out.
unfoldable pub add_values : List ℕ → Option MibValues → SensorUpdater → Effect SensorUpdater
add_values sub_id none u = (ok tt, u)
add_values sub_id (some values) u = (ok tt, record u { rows = add_row sub_id values u.rows })

unfoldable pub is_in : Text → List Text → Bool
is_in x [] = false
is_in x (y ∷ ys) = x ≟ y || is_in x ys

unfoldable pub note_broken : Text → SensorUpdater → SensorUpdater
unfolding is_in
note_broken interface u = record u {
  broken_transceiver_info =
      if is_in interface u.broken_transceiver_info
      then u.broken_transceiver_info
      else u.broken_transceiver_info ++ (interface ∷ []);
}

module _ (floats : Floats) (port_util : PortUtil) where
  -- A sensor with its sub-identifier.
  unfoldable pub add_sensor : Result (List ℕ) → SensorData → SensorUpdater → Effect SensorUpdater
  unfolding add_values
  add_sensor sub_id d u =
      with_result sub_id u
        (λ k. add_values k (mib_values floats d.sensor_attrs.sensor_interface d.value) u)

  unfoldable pub xcvr_sub_id : ℕ → SensorData → Result (List ℕ)
  xcvr_sub_id ifindex d = do offset ← get_oid_offset d; get_transceiver_sensor_sub_id ifindex offset

  unfoldable pub xcvr_typed : Text → ℕ → Text → Option Text → SensorUpdater → Effect SensorUpdater
  unfolding note_broken add_sensor xcvr_sub_id
  xcvr_typed entry ifindex interface none u = (ok tt, note_broken interface u)
  xcvr_typed entry ifindex interface (some type_) u =
      if type_ ≟ codes "RJ45"
      then (ok tt, u)
      else for_each (λ d. add_sensor (xcvr_sub_id ifindex d) d)
          (create_sensor_data match transceiver_attrs (dbs_get_all u.statedb state_db entry)) u

  unfoldable pub xcvr_indexed : Text → Text → Option ℕ → SensorUpdater → Effect SensorUpdater
  unfolding xcvr_typed
  xcvr_indexed entry interface none u = (ok tt, u)
  xcvr_indexed entry interface (some ifindex) u =
      xcvr_typed entry ifindex interface
        (find (codes "type") (dbs_get_all u.statedb state_db (transceiver_info_table interface))) u

  unfoldable pub update_xcvr : Text → SensorUpdater → Effect SensorUpdater
  unfolding xcvr_indexed
  update_xcvr entry u =
      let interface = last_of_split (vbar ∷ []) entry in
      xcvr_indexed entry interface (port_util.get_index_from_str interface) u

  -- A value that is there.
  unfoldable pub add_present : Result (List ℕ) → SensorData → SensorUpdater → Effect SensorUpdater
  unfolding add_sensor
  add_present sub_id d u = if is_null_empty_str d.value then (ok tt, u) else add_sensor sub_id d u

  unfoldable pub psu_sub_id : List ℕ → SensorData → Result (List ℕ)
  unfolding psu_part lower
  psu_sub_id parent d = do
    part ← psu_part (lower d.sensor_attrs.name)
    get_psu_sensor_sub_id parent part

  unfoldable pub psu_at : DbConn → Text → Text → SensorUpdater → Effect SensorUpdater
  unfolding add_present psu_sub_id
  psu_at host entry position u =
      if is_null_empty_str position
      then (ok tt, u)
      else with_result (to_int position) u (λ n.
        for_each (λ d. add_present (psu_sub_id (get_psu_sub_id n) d) d)
          (create_sensor_data fullmatch psu_attrs (or_empty (host.get_all state_db entry))) u)

  unfoldable pub update_psu : DbConn → Text → SensorUpdater → Effect SensorUpdater
  unfolding psu_at
  update_psu host entry u =
      let name = last_of_split (vbar ∷ []) entry in
      with_result (get_db_data (host.get_all state_db (physical_entity_info_table name))) u
        (λ relation. psu_at host entry relation.0 u)
