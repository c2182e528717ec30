-- ===== src/Mibs/Sensor/Table.antt =====
-- The sensor table after an update: the rows are filled and sorted, and the entry is lawful.
use sonic_snmpagent.Prelude.{
  ℕ, pos, ◌≡◌, refl, List, [], ◌∷◌, Option, none, some, ok, Bool-cases, inl, inr, true,
}
use sonic_snmpagent.Constants.{integer}
use sonic_snmpagent.Encodings.Value.{int}
use sonic_snmpagent.Entity.{
  head, get_fan_sub_id, get_fan_tachometers_sub_id, get_chassis_thermal_sub_id,
}
use sonic_snmpagent.Dict.{find, ◌≟◌, list_eq}
use sonic_snmpagent.Strings.{Text, vbar, to_int}
use sonic_snmpagent.Order.{In}
use sonic_snmpagent.Order.Sorting.{IsSorted, sorted-IsSorted}
use sonic_snmpagent.Mib.Successor.{IsLawful}
use sonic_snmpagent.Mibs.Effect.{
  Effect, Keeps, Keeps-ok, with_result-Keeps, for_each-Keeps, and_then_both,
}
use sonic_snmpagent.Mibs.Interfaces.Counters.{in_range}
use sonic_snmpagent.Mibs.Keys.{state_db, physical_entity_info_table}
use sonic_snmpagent.Mibs.Namespace.{DbConn, or_empty}
use sonic_snmpagent.Mibs.PortUtil.{PortUtil}
use sonic_snmpagent.Mibs.Rows.{sort_rows, item_at}
use sonic_snmpagent.Mibs.Rows.Table.{sort_rows-IsTable, subtree-IsLawful}
use sonic_snmpagent.Mibs.Tables.Mgmt.{last_of_split}
use sonic_snmpagent.Mibs.Sensor.{Floats}
use sonic_snmpagent.Mibs.Sensor.Data.{create_sensor_data, fullmatch, fan_attrs, thermal_attrs}
use sonic_snmpagent.Mibs.Sensor.Sources.{
  SensorUpdater, is_null_empty_str, get_db_data, update_xcvr, update_psu,
}
use sonic_snmpagent.Mibs.Sensor.Update.{
  fan_parent, fan_sub_id, fan_under, fan_at, update_fan, is_chassis, thermal_at, update_thermal,
  on_host, sort_sub_ids, update_data,
}
use sonic_snmpagent.Mibs.Sensor.Filled.{
  Any, IsFilled, Full, one_full, bind-Full, add_present-Keeps, update_xcvr-Keeps, update_psu-Keeps,
}
use sonic_snmpagent.Mibs.Sensor.Columns.{
  column, listed, get_ent_physical_sensor_value, signed_data, ent_phy_sensor_value,
}

in_range-In : (k : List ℕ) (xs : List (List ℕ)) → In k xs → in_range k xs ≡ true
unfolding in_range
in_range-In k [] i = absurd i
in_range-In k (x ∷ xs) (inl e) = rw ((list_eq.test_iff k x).1 e) refl
in_range-In k (x ∷ xs) (inr i) = elim (Bool-cases (k ≟ x)) [
  | inl e ↦ rw e refl
  | inr e ↦ rw e (in_range-In k xs i)
]

module _ (floats : Floats) (port_util : PortUtil) where
  -- The sort at the end needs no property of the steps on the host before it but that they keep the
  -- rows filled.
  on_host-Keeps :
      (step : DbConn → Text → SensorUpdater → Effect SensorUpdater) (entries : List Text)
      (u : SensorUpdater)
      → ((host : DbConn) (entry : Text) (s : SensorUpdater)
          → IsFilled s
          → Keeps IsFilled (step host entry s))
      → IsFilled u
      → Keeps IsFilled (on_host floats port_util step entries u)
  unfolding on_host
  on_host-Keeps step [] u f t = t
  on_host-Keeps step (entry ∷ entries) u f t =
      with_result-Keeps IsFilled (item_at u.statedb 0) u _ (λ host e.
        for_each-Keeps IsFilled (step host) (entry ∷ entries) u (λ x s w. f host x s w) t)

  fan_sub_id-Full : (fan : List ℕ) → Full (fan_sub_id floats port_util fan)
  unfolding fan_sub_id get_fan_tachometers_sub_id
  fan_sub_id-Full fan = bind-Full (head fan) _ (λ top. one_full _)

  fan_under-Keeps :
      (host : DbConn) (entry : Text) (n : ℕ) (parent : Option (List ℕ)) (u : SensorUpdater)
      → IsFilled u
      → Keeps IsFilled (fan_under floats port_util host entry n parent u)
  unfolding fan_under
  fan_under-Keeps host entry n none u t = t
  fan_under-Keeps host entry n (some parent) u t =
      with_result-Keeps IsFilled (get_fan_sub_id parent n) u _ (λ fan e.
        for_each-Keeps IsFilled _
          (create_sensor_data fullmatch fan_attrs (or_empty (host.get_all state_db entry))) u
          (λ d s w.
            add_present-Keeps floats port_util (fan_sub_id floats port_util fan) d s
              (fan_sub_id-Full fan) w)
          t)

  update_fan-Keeps :
      (host : DbConn) (entry : Text) (u : SensorUpdater)
      → IsFilled u
      → Keeps IsFilled (update_fan floats port_util host entry u)
  unfolding update_fan fan_at
  update_fan-Keeps host entry u t =
      with_result-Keeps IsFilled
        (get_db_data
          (host.get_all state_db (physical_entity_info_table (last_of_split (vbar ∷ []) entry))))
        u _
        (λ relation e. elim (Bool-cases (is_null_empty_str relation.0)) [
          | inl z ↦ rw z t
          | inr z ↦ rw z (
              with_result-Keeps IsFilled (to_int relation.0) u _ (λ n h.
                with_result-Keeps IsFilled (fan_parent floats port_util host relation.1) u _
                  (λ parent q. fan_under-Keeps host entry n parent u t)))
        ])

  update_thermal-Keeps :
      (host : DbConn) (entry : Text) (u : SensorUpdater)
      → IsFilled u
      → Keeps IsFilled (update_thermal floats port_util host entry u)
  unfolding update_thermal thermal_at get_chassis_thermal_sub_id
  update_thermal-Keeps host entry u t =
      with_result-Keeps IsFilled
        (get_db_data
          (host.get_all state_db (physical_entity_info_table (last_of_split (vbar ∷ []) entry))))
        u _
        (λ relation e. elim (Bool-cases (is_chassis floats port_util relation.1)) [
          | inr z ↦ rw z t
          | inl z ↦ rw z (
              with_result-Keeps IsFilled (to_int relation.0) u _ (λ n h.
                for_each-Keeps IsFilled _
                  (create_sensor_data fullmatch thermal_attrs
                    (or_empty (host.get_all state_db entry)))
                  u
                  (λ d s w.
                    add_present-Keeps floats port_util (ok (get_chassis_thermal_sub_id n)) d s
                      (one_full _) w)
                  t))
        ])

  abbrev IsUpdated : SensorUpdater → Type 0
  IsUpdated u = IsFilled u × IsSorted u.rows.sub_ids

  start_rows-IsFilled :
      (u : SensorUpdater)
      → IsFilled (record u { rows = record { value_map = u.rows.value_map; sub_ids = [] } })
  start_rows-IsFilled u = record { valued = λ k i. absurd i; filled = λ k i. absurd i }

  sort_sub_ids-Keeps :
      (u : SensorUpdater) → IsFilled u → Keeps IsUpdated (sort_sub_ids floats port_util u)
  unfolding sort_sub_ids sort_rows
  sort_sub_ids-Keeps u t = (sort_rows-IsTable Any u.rows t, sorted-IsSorted u.rows.sub_ids)

  update_data-Keeps : (u : SensorUpdater) → Keeps IsUpdated (update_data floats port_util u)
  unfolding update_data
  update_data-Keeps u =
      and_then_both IsFilled IsUpdated _ _
        (for_each-Keeps IsFilled (update_xcvr floats port_util) u.transceiver_dom _
          (λ entry s w. update_xcvr-Keeps floats port_util entry s w) (start_rows-IsFilled u))
        (λ u1 t1.
          and_then_both IsFilled IsUpdated _ _
            (on_host-Keeps (update_psu floats port_util) u1.psu_sensor u1
              (update_psu-Keeps floats port_util) t1)
            (λ u2 t2.
              and_then_both IsFilled IsUpdated _ _
                (on_host-Keeps (update_fan floats port_util) u2.fan_sensor u2 update_fan-Keeps t2)
                (λ u3 t3.
                  and_then_both IsFilled IsUpdated _ _
                    (on_host-Keeps (update_thermal floats port_util) u3.thermal_sensor u3
                      update_thermal-Keeps t3)
                    sort_sub_ids-Keeps)))

  -- After an update that returns, entPhySensorValue fulfils the contract of a handler over the
  -- listed sensors, whatever the databases hold.
  pub sensor_value-IsLawful :
      (u u' : SensorUpdater) (prefix : List ℕ) (prefixlen : ℕ)
      → update_data floats port_util u ≡ (ok tt, u')
      → IsLawful (ent_phy_sensor_value u' prefix prefixlen) (λ k. In k u'.rows.sub_ids)
  unfolding ent_phy_sensor_value get_ent_physical_sensor_value listed signed_data
  sensor_value-IsLawful u u' prefix prefixlen e =
      let (filled, order) =
        Keeps-ok IsUpdated (update_data floats port_util u) u' (update_data-Keeps u) e in
      subtree-IsLawful integer (1 ∷ 4 ∷ []) prefix prefixlen u'.rows.sub_ids
        (λ sub_id. signed_data (get_ent_physical_sensor_value u' sub_id)) order filled.filled
        (λ k i. (
          int (column (λ v. v.value) (pos 0) (find k u'.rows.value_map)),
          rw (in_range-In k u'.rows.sub_ids i) refl,
        ))
