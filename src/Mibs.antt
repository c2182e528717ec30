-- ===== src/Mibs.antt =====
-- The MIBs of src/sonic_ax_impl/mibs.
pub mod Keys
pub mod Namespace
pub mod PortUtil
pub mod Tables
pub mod Values
pub mod Numbers
pub mod Effect
pub mod Rows
pub mod Fdb
pub mod Route
pub mod Arp
pub mod NextHop
pub mod OidTree
pub mod Interfaces
pub mod IfMib
pub mod Sensor
pub mod Qos
pub mod Bgp
