-- ===== src/Mibs/PortUtil.antt =====
-- The module port_util of sonic_py_common, which is not part of the repository, as a record of
-- functions that the code of the MIBs calls.
use sonic_snmpagent.Prelude.{ℕ, Option, Bool}
use sonic_snmpagent.Dict.{Dict}
use sonic_snmpagent.Strings.{Text}
use sonic_snmpagent.Mibs.Namespace.{DbConn}

-- The four tests stand for `re.match` with the patterns of that module.
pub record PortUtil : Type 0 where
  pub get_index_from_str : Text → Option ℕ
  pub matches_ethernet : Text → Bool
  pub matches_ethernet_bp : Text → Bool
  pub matches_ethernet_ib : Text → Bool
  pub matches_ethernet_rec : Text → Bool
  pub get_interface_oid_map : DbConn → Dict Text Text × Dict Text Text
  pub get_rif_port_map : DbConn → Dict Text Text
  pub get_vlan_interface_oid_map : DbConn → Dict Text Text
  pub get_bridge_port_map : DbConn → Dict Text Text
  pub get_vlan_id_from_bvid : DbConn → Text → Option Text
