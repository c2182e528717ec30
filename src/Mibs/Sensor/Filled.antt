-- ===== src/Mibs/Sensor/Filled.antt =====
-- The transceivers and the PSUs add filled rows.
use sonic_snmpagent.Prelude.{
  ℕ, ◌+◌, ◌≡◌, refl, List, [], ◌∷◌, Option, none, some, Result, ok, err, ◌>>=◌, Bool-cases, inl,
  inr,
}
use sonic_snmpagent.Entity.{
  one, get_transceiver_sensor_sub_id, get_transceiver_sub_id, head, get_psu_sub_id,
  get_psu_sensor_sub_id, psu_sensor_part_id, device_type_power_monitor,
}
use sonic_snmpagent.Dict.{find, ◌≟◌, list_eq}
use sonic_snmpagent.Strings.{Text, codes, vbar, to_int}
use sonic_snmpagent.Order.{◌≺◌, lt_tuple}
use sonic_snmpagent.Mibs.Effect.{Keeps, with_result-Keeps, for_each-Keeps}
use sonic_snmpagent.Mibs.Keys.{state_db, transceiver_info_table, physical_entity_info_table}
use sonic_snmpagent.Mibs.Namespace.{DbConn, dbs_get_all, or_empty}
use sonic_snmpagent.Mibs.PortUtil.{PortUtil}
use sonic_snmpagent.Mibs.Rows.Table.{IsTable, add_row-IsTable}
use sonic_snmpagent.Mibs.Tables.Mgmt.{last_of_split}
use sonic_snmpagent.Mibs.Sensor.{Floats, MibValues, mib_values}
use sonic_snmpagent.Mibs.Sensor.Data.{
  SensorData, create_sensor_data, match, fullmatch, get_oid_offset, transceiver_attrs, psu_attrs,
}
use sonic_snmpagent.Mibs.Sensor.Sources.{
  SensorUpdater, is_null_empty_str, get_db_data, lower, psu_part, add_values, note_broken,
  add_sensor, xcvr_sub_id, xcvr_typed, xcvr_indexed, update_xcvr, add_present, psu_sub_id, psu_at,
  update_psu,
}

abbrev pub Any : MibValues → Type 0
Any v = Unit

abbrev pub IsFilled : SensorUpdater → Type 0
IsFilled u = IsTable Any u.rows

-- A sub-identifier that is computed is not empty.
abbrev pub Full : Result (List ℕ) → Type 0
Full (err e) = Unit
Full (ok k) = [] ≺ k

pub one_full : (n : ℕ) → [] ≺ one n
one_full n = unfold lt_tuple in refl

pub bind-Full :
    {A : Type 0} (r : Result A) (f : A → Result (List ℕ)) → ((a : A) → Full (f a)) → Full (r >>= f)
bind-Full (err e) f h = tt
bind-Full (ok a) f h = h a

pub Full-ok : (r : Result (List ℕ)) (k : List ℕ) → Full r → r ≡ ok k → [] ≺ k
Full-ok (err e) k f h = absurd cc
Full-ok (ok j) k f h = let e : j ≡ k = cc in rw (← e) f

pub add_values-Keeps :
    (k : List ℕ) (v : Option MibValues) (u : SensorUpdater)
    → [] ≺ k
    → IsFilled u
    → Keeps IsFilled (add_values k v u)
unfolding add_values
add_values-Keeps k none u f t = t
add_values-Keeps k (some v) u f t = add_row-IsTable Any k v u.rows f tt t

module _ (floats : Floats) (port_util : PortUtil) where
  pub add_sensor-Keeps :
      (sub_id : Result (List ℕ)) (d : SensorData) (u : SensorUpdater)
      → Full sub_id
      → IsFilled u
      → Keeps IsFilled (add_sensor floats port_util sub_id d u)
  unfolding add_sensor
  add_sensor-Keeps sub_id d u f t = with_result-Keeps IsFilled sub_id u _ (λ k e.
      add_values-Keeps k (mib_values floats d.sensor_attrs.sensor_interface d.value) u
        (Full-ok sub_id k f e) t)

  pub add_present-Keeps :
      (sub_id : Result (List ℕ)) (d : SensorData) (u : SensorUpdater)
      → Full sub_id
      → IsFilled u
      → Keeps IsFilled (add_present floats port_util sub_id d u)
  unfolding add_present
  add_present-Keeps sub_id d u f t = elim (Bool-cases (is_null_empty_str d.value)) [
    | inl e ↦ rw e t
    | inr e ↦ rw e (add_sensor-Keeps sub_id d u f t)
  ]

  pub xcvr_sub_id-Full : (n : ℕ) (d : SensorData) → Full (xcvr_sub_id floats port_util n d)
  unfolding xcvr_sub_id get_transceiver_sensor_sub_id
  xcvr_sub_id-Full n d = bind-Full (get_oid_offset d) (get_transceiver_sensor_sub_id n) (λ offset.
      bind-Full (head (get_transceiver_sub_id n)) (λ top. ok (one (top + offset)))
        (λ top. one_full (top + offset)))

  pub xcvr_typed-Keeps :
      (entry : Text) (n : ℕ) (interface : Text) (type_ : Option Text) (u : SensorUpdater)
      → IsFilled u
      → Keeps IsFilled (xcvr_typed floats port_util entry n interface type_ u)
  unfolding xcvr_typed note_broken
  xcvr_typed-Keeps entry n interface none u t = t
  xcvr_typed-Keeps entry n interface (some type_) u t = elim (Bool-cases (type_ ≟ codes "RJ45")) [
    | inl e ↦ rw e t
    | inr e ↦ rw e (
        for_each-Keeps IsFilled
          (λ d. add_sensor floats port_util (xcvr_sub_id floats port_util n d) d)
          (create_sensor_data match transceiver_attrs (dbs_get_all u.statedb state_db entry)) u
          (λ d s w.
            add_sensor-Keeps (xcvr_sub_id floats port_util n d) d s (xcvr_sub_id-Full n d) w)
          t)
  ]

  pub xcvr_indexed-Keeps :
      (entry interface : Text) (index : Option ℕ) (u : SensorUpdater)
      → IsFilled u
      → Keeps IsFilled (xcvr_indexed floats port_util entry interface index u)
  unfolding xcvr_indexed
  xcvr_indexed-Keeps entry interface none u t = t
  xcvr_indexed-Keeps entry interface (some n) u t =
      xcvr_typed-Keeps entry n interface
        (find (codes "type") (dbs_get_all u.statedb state_db (transceiver_info_table interface))) u
        t

  pub update_xcvr-Keeps :
      (entry : Text) (u : SensorUpdater)
      → IsFilled u
      → Keeps IsFilled (update_xcvr floats port_util entry u)
  unfolding update_xcvr
  update_xcvr-Keeps entry u t =
      let interface = last_of_split (vbar ∷ []) entry in
      xcvr_indexed-Keeps entry interface (port_util.get_index_from_str interface) u t

  pub psu_sub_id-Full :
      (parent : List ℕ) (d : SensorData) → Full (psu_sub_id floats port_util parent d)
  unfolding psu_sub_id get_psu_sensor_sub_id
  psu_sub_id-Full parent d =
      bind-Full (psu_part (lower d.sensor_attrs.name)) (get_psu_sensor_sub_id parent) (λ part.
        bind-Full (head parent)
          (λ top. ok (one (top + device_type_power_monitor + psu_sensor_part_id part)))
          (λ top. one_full (top + device_type_power_monitor + psu_sensor_part_id part)))

  pub update_psu-Keeps :
      (host : DbConn) (entry : Text) (u : SensorUpdater)
      → IsFilled u
      → Keeps IsFilled (update_psu floats port_util host entry u)
  unfolding update_psu psu_at
  update_psu-Keeps host entry u t =
      with_result-Keeps IsFilled
        (get_db_data
          (host.get_all state_db (physical_entity_info_table (last_of_split (vbar ∷ []) entry))))
        u _
        (λ relation e. elim (Bool-cases (is_null_empty_str relation.0)) [
          | inl z ↦ rw z t
          | inr z ↦ rw z (
              with_result-Keeps IsFilled (to_int relation.0) u _ (λ n h.
                for_each-Keeps IsFilled _
                  (create_sensor_data fullmatch psu_attrs (or_empty (host.get_all state_db entry)))
                  u
                  (λ d s w.
                    add_present-Keeps (psu_sub_id floats port_util (get_psu_sub_id n) d) d s
                      (psu_sub_id-Full (get_psu_sub_id n) d) w)
                  t))
        ])
