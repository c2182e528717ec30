-- ===== src/Mibs/Sensor/Columns.antt =====
-- src/sonic_ax_impl/mibs/ietf/rfc3433.py: the columns of the sensor table.
use sonic_snmpagent.Prelude.{
  ℕ, ℤ, pos, List, [], ◌∷◌, Option, none, some, Result, ok, if◌then◌else◌,
}
use sonic_snmpagent.Constants.{integer}
use sonic_snmpagent.Encodings.Value.{Data, int}
use sonic_snmpagent.Dict.{find, list_eq}
use sonic_snmpagent.Mib.Entry.{MibEntry, subtree}
use sonic_snmpagent.Mibs.Interfaces.Counters.{in_range}
use sonic_snmpagent.Mibs.Rows.{next_sub_id}
use sonic_snmpagent.Mibs.Sensor.{MibValues, type_number, scale_number, status_number}
use sonic_snmpagent.Mibs.Sensor.Sources.{SensorUpdater}

-- `map.get(sub_id, default)` of one of the five maps, if the sub-identifier is listed.
unfoldable pub column {ℓ} : {A : Type ℓ} → (MibValues → A) → A → Option MibValues → A
column field default none = default
column field default (some values) = field values

unfoldable pub listed {ℓ} : {A : Type ℓ} → (MibValues → A) → A → SensorUpdater → List ℕ → Option A
unfolding column in_range
listed field default u sub_id =
    if in_range sub_id u.rows.sub_ids
    then some (column field default (find sub_id u.rows.value_map))
    else none

unfoldable pub get_ent_physical_sensor_type : SensorUpdater → List ℕ → Option ℕ
unfolding listed
get_ent_physical_sensor_type = listed (λ v. type_number v.type_) 2

unfoldable pub get_ent_physical_sensor_scale : SensorUpdater → List ℕ → Option ℕ
unfolding listed
get_ent_physical_sensor_scale = listed (λ v. scale_number v.scale) 0

unfoldable pub get_ent_physical_sensor_precision : SensorUpdater → List ℕ → Option ℕ
unfolding listed
get_ent_physical_sensor_precision = listed (λ v. v.precision) 0

unfoldable pub get_ent_physical_sensor_value : SensorUpdater → List ℕ → Option ℤ
unfolding listed
get_ent_physical_sensor_value = listed (λ v. v.value) (pos 0)

unfoldable pub get_ent_physical_sensor_oper_status : SensorUpdater → List ℕ → Option ℕ
unfolding listed
get_ent_physical_sensor_oper_status = listed (λ v. status_number v.oper_status) 2

unfoldable pub signed_data : Option ℤ → Result (Option Data)
signed_data none = ok none
signed_data (some n) = ok (some (int n))

unfoldable pub ent_phy_sensor_value : SensorUpdater → List ℕ → ℕ → MibEntry
ent_phy_sensor_value u prefix prefixlen = record {
  value_type = integer;
  subtree = 1 ∷ 4 ∷ [];
  prefix = prefix;
  prefixlen = prefixlen;
  handler =
      subtree (next_sub_id u.rows.sub_ids)
        (λ sub_id. signed_data (get_ent_physical_sensor_value u sub_id));
}
