-- ===== src/Mibs/Keys.antt =====
-- The names of tables and keys in src/sonic_ax_impl/mibs/__init__.py.
use sonic_snmpagent.Prelude.{◌≡◌, refl, List, [], ◌∷◌, ◌++◌, Result, ok, err, value_error}
use sonic_snmpagent.Dict.{list_eq}
use sonic_snmpagent.Strings.{
  Text, codes, split_at, colon, vbar, IsFree, split_at-free, split_at-append,
}

abbrev pub appl_db : Text
appl_db = codes "APPL_DB"

abbrev pub asic_db : Text
asic_db = codes "ASIC_DB"

abbrev pub counters_db : Text
counters_db = codes "COUNTERS_DB"

abbrev pub config_db : Text
config_db = codes "CONFIG_DB"

abbrev pub state_db : Text
state_db = codes "STATE_DB"

abbrev pub snmp_overlay_db : Text
snmp_overlay_db = codes "SNMP_OVERLAY_DB"

-- `NEIGH_TABLE:device:ip`; unpacking another number of parts raises ValueError.
unfoldable pub three_parts : List Text → Result (Text × Text)
three_parts [] = err value_error
three_parts (a ∷ []) = err value_error
three_parts (a ∷ b ∷ []) = err value_error
three_parts (a ∷ device ∷ ip ∷ []) = ok (device, ip)
three_parts (a ∷ b ∷ c ∷ d ∷ more) = err value_error

unfoldable pub get_neigh_info : Text → Result (Text × Text)
unfolding three_parts
get_neigh_info neigh_key = three_parts (split_at colon neigh_key)

unfoldable pub chassis_info_table : Text → Text
chassis_info_table chassis_name = codes "CHASSIS_INFO" ++ (vbar ∷ chassis_name)

unfoldable pub buffer_max_parm_table : Text → Text
buffer_max_parm_table port_name = codes "BUFFER_MAX_PARAM_TABLE" ++ (vbar ∷ port_name)

unfoldable pub fan_info_table : Text → Text
fan_info_table fan_name = codes "FAN_INFO" ++ (vbar ∷ fan_name)

unfoldable pub fan_drawer_info_table : Text → Text
fan_drawer_info_table drawer_name = codes "FAN_DRAWER_INFO" ++ (vbar ∷ drawer_name)

unfoldable pub psu_info_table : Text → Text
psu_info_table psu_name = codes "PSU_INFO" ++ (vbar ∷ psu_name)

unfoldable pub physical_entity_info_table : Text → Text
physical_entity_info_table name = codes "PHYSICAL_ENTITY_INFO" ++ (vbar ∷ name)

unfoldable pub counter_table : Text → Text
counter_table sai_id = codes "COUNTERS:oid:0x" ++ sai_id

unfoldable pub queue_table : Text → Text
queue_table sai_id = codes "COUNTERS:" ++ sai_id

-- The parts as texts.
unfoldable pub queue_key : Text → Text → Text
queue_key port_index queue_index = port_index ++ (colon ∷ queue_index)

unfoldable pub transceiver_info_table : Text → Text
transceiver_info_table port_name = codes "TRANSCEIVER_INFO" ++ (vbar ∷ port_name)

unfoldable pub transceiver_dom_table : Text → Text
transceiver_dom_table port_name = codes "TRANSCEIVER_DOM_SENSOR" ++ (vbar ∷ port_name)

unfoldable pub thermal_info_table : Text → Text
thermal_info_table thermal_name = codes "TEMPERATURE_INFO" ++ (vbar ∷ thermal_name)

unfoldable pub lldp_entry_table : Text → Text
lldp_entry_table if_name = codes "LLDP_ENTRY_TABLE:" ++ if_name

unfoldable pub if_entry_table : Text → Text
if_entry_table if_name = codes "PORT_TABLE:" ++ if_name

unfoldable pub vlan_entry_table : Text → Text
vlan_entry_table if_name = codes "VLAN_TABLE:" ++ if_name

unfoldable pub lag_entry_table : Text → Text
lag_entry_table lag_name = codes "LAG_TABLE:" ++ lag_name

unfoldable pub mgmt_if_entry_table : Text → Text
mgmt_if_entry_table if_name = codes "MGMT_PORT|" ++ if_name

unfoldable pub mgmt_if_entry_table_state_db : Text → Text
mgmt_if_entry_table_state_db if_name = codes "MGMT_PORT_TABLE|" ++ if_name

unfoldable pub get_sai_id_key : Text → Text → Text
get_sai_id_key [] sai_id = sai_id
get_sai_id_key (c ∷ namespace) sai_id = (c ∷ namespace) ++ (colon ∷ sai_id)

-- `split` gives at least one part.
unfoldable pub first_two : Text → List Text → Text × Text
first_two sai_id_key [] = ([], sai_id_key)
first_two sai_id_key (part ∷ []) = ([], sai_id_key)
first_two sai_id_key (namespace ∷ sai_id ∷ more) = (namespace, sai_id)

unfoldable pub split_sai_id_key : Text → Text × Text
unfolding first_two
split_sai_id_key sai_id_key = first_two sai_id_key (split_at colon sai_id_key)

-- A key made of a namespace and a SAI id is split into the two, also where the namespace is empty.
-- Neither holds a colon.
pub split_sai_id_key-get_sai_id_key :
    (namespace sai_id : Text)
    → IsFree colon namespace
    → IsFree colon sai_id
    → split_sai_id_key (get_sai_id_key namespace sai_id) ≡ (namespace, sai_id)
unfolding split_sai_id_key get_sai_id_key
split_sai_id_key-get_sai_id_key [] sai_id h g = rw (split_at-free colon sai_id g) refl
split_sai_id_key-get_sai_id_key (c ∷ namespace) sai_id h g =
    rw (split_at-append colon (c ∷ namespace) sai_id h, split_at-free colon sai_id g) refl

pub get_neigh_info_lem :
    (table device ip : Text)
    → IsFree colon table
    → IsFree colon device
    → IsFree colon ip
    → get_neigh_info (table ++ (colon ∷ (device ++ (colon ∷ ip)))) ≡ ok (device, ip)
unfolding get_neigh_info
get_neigh_info_lem table device ip h g f =
    rw
      (
        split_at-append colon table (device ++ (colon ∷ ip)) h,
        split_at-append colon device ip g,
        split_at-free colon ip f,
      )
      refl
