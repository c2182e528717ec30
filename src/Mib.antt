-- ===== src/Mib.antt =====
-- src/ax_interface/mib.py: the entries, the classes of entries, the table and the updaters.
pub mod Entry
pub mod Table
pub mod Meta
pub mod Updater
pub mod Find
pub mod Successor
pub mod Get
pub mod Limits
