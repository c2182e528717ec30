-- ===== src/Mibs/Sensor/Update.antt =====
-- src/sonic_ax_impl/mibs/ietf/rfc3433.py: PhysicalSensorTableMIBUpdater, the fans and the thermal
-- sensors, and the whole update.
use sonic_snmpagent.Prelude.{
  ℕ, List, [], ◌∷◌, Option, none, some, Result, ok, ◌>>=◌, Bool, ◌&&◌, if◌then◌else◌, not,
}
use sonic_snmpagent.Entity.{
  one, chassis_sub_id, get_psu_sub_id, get_fan_sub_id, get_fan_drawer_sub_id,
  get_fan_tachometers_sub_id, get_chassis_thermal_sub_id,
}
use sonic_snmpagent.Dict.{Dict, list_eq}
use sonic_snmpagent.Strings.{Text, codes, vbar, to_int}
use sonic_snmpagent.Mibs.Effect.{Effect, and_then, with_result, for_each}
use sonic_snmpagent.Mibs.Keys.{state_db, physical_entity_info_table}
use sonic_snmpagent.Mibs.Namespace.{DbConn, or_empty}
use sonic_snmpagent.Mibs.PortUtil.{PortUtil}
use sonic_snmpagent.Mibs.Rows.{sort_rows, item_at}
use sonic_snmpagent.Mibs.Tables.Mgmt.{last_of_split}
use sonic_snmpagent.Mibs.Sensor.{Floats}
use sonic_snmpagent.Mibs.Sensor.Data.{create_sensor_data, fullmatch, fan_attrs, thermal_attrs}
use sonic_snmpagent.Mibs.Sensor.Sources.{
  SensorUpdater, is_null_empty_str, get_db_data, is_part, lower, update_xcvr, add_present,
  update_psu,
}

module _ (floats : Floats) (port_util : PortUtil) where
  -- The PSU or the drawer that holds the fan; `none` where the parent has no entry.
  unfoldable pub parent_in : Text → Dict Text Text → Result (Option (List ℕ))
  parent_in parent_name [] = ok none
  parent_in parent_name (field ∷ info) = do
    relation ← get_db_data (some (field ∷ info))
    position ← to_int relation.0
    ok (
        some (
          if is_part (codes "PSU") parent_name
          then get_psu_sub_id position
          else get_fan_drawer_sub_id position))

  unfoldable pub fan_parent : DbConn → Text → Result (Option (List ℕ))
  unfolding parent_in
  fan_parent host parent_name =
      if is_part (codes "chassis") parent_name
      then ok (some (one chassis_sub_id))
      else parent_in parent_name
          (or_empty (host.get_all state_db (physical_entity_info_table parent_name)))

  unfoldable pub fan_sub_id : List ℕ → Result (List ℕ)
  fan_sub_id parent = get_fan_tachometers_sub_id parent

  unfoldable pub fan_under :
      DbConn → Text → ℕ → Option (List ℕ) → SensorUpdater → Effect SensorUpdater
  unfolding add_present fan_sub_id
  fan_under host entry position none u = (ok tt, u)
  fan_under host entry position (some parent) u =
      with_result (get_fan_sub_id parent position) u (λ fan.
        for_each (λ d. add_present floats port_util (fan_sub_id fan) d)
          (create_sensor_data fullmatch fan_attrs (or_empty (host.get_all state_db entry))) u)

  unfoldable pub fan_at : DbConn → Text → Text × Text → SensorUpdater → Effect SensorUpdater
  unfolding fan_parent fan_under
  fan_at host entry (position, parent_name) u =
      if is_null_empty_str position
      then (ok tt, u)
      else with_result (to_int position) u (λ n.
        with_result (fan_parent host parent_name) u (λ parent. fan_under host entry n parent u))

  unfoldable pub update_fan : DbConn → Text → SensorUpdater → Effect SensorUpdater
  unfolding fan_at
  update_fan host entry u =
      let name = last_of_split (vbar ∷ []) entry in
      with_result (get_db_data (host.get_all state_db (physical_entity_info_table name))) u
        (λ relation. fan_at host entry relation u)

  unfoldable pub is_chassis : Text → Bool
  unfolding lower is_part
  is_chassis parent_name =
      not (is_null_empty_str parent_name) && is_part (codes "chassis") (lower parent_name)

  -- The position is not tested for being there.
  unfoldable pub thermal_at : DbConn → Text → Text × Text → SensorUpdater → Effect SensorUpdater
  unfolding is_chassis add_present
  thermal_at host entry (position, parent_name) u =
      if is_chassis parent_name
      then with_result (to_int position) u (λ n.
        for_each (λ d. add_present floats port_util (ok (get_chassis_thermal_sub_id n)) d)
          (create_sensor_data fullmatch thermal_attrs (or_empty (host.get_all state_db entry))) u)
      else (ok tt, u)

  unfoldable pub update_thermal : DbConn → Text → SensorUpdater → Effect SensorUpdater
  unfolding thermal_at
  update_thermal host entry u =
      let name = last_of_split (vbar ∷ []) entry in
      with_result (get_db_data (host.get_all state_db (physical_entity_info_table name))) u
        (λ relation. thermal_at host entry relation u)

  -- The sensors of the host's namespace; an empty list asks for no connector.
  unfoldable pub on_host :
      (DbConn → Text → SensorUpdater → Effect SensorUpdater)
      → List Text
      → SensorUpdater
      → Effect SensorUpdater
  on_host step [] u = (ok tt, u)
  on_host step (entry ∷ entries) u =
      with_result (item_at u.statedb 0) u (λ host. for_each (step host) (entry ∷ entries) u)

  unfoldable pub sort_sub_ids : SensorUpdater → Effect SensorUpdater
  sort_sub_ids u = (ok tt, record u { rows = sort_rows u.rows })

  unfoldable pub update_data : SensorUpdater → Effect SensorUpdater
  unfolding update_xcvr on_host update_psu update_fan update_thermal sort_sub_ids
  update_data u =
      let start = record u { rows = record { value_map = u.rows.value_map; sub_ids = [] } } in
      and_then (for_each (update_xcvr floats port_util) u.transceiver_dom start) (λ u1.
        and_then (on_host (update_psu floats port_util) u1.psu_sensor u1) (λ u2.
          and_then (on_host update_fan u2.fan_sensor u2)
            (λ u3. and_then (on_host update_thermal u3.thermal_sensor u3) sort_sub_ids)))
