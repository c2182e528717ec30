-- ===== src/Encodings.antt =====
-- src/ax_interface/encodings.py: one module per class.
pub mod Oid
pub mod Octets
pub mod Range
pub mod Value
