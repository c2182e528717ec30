-- ===== src/Pdu.antt =====
-- src/ax_interface/pdu.py and src/ax_interface/pdu_implementations.py.
pub mod Errors
pub mod Header
pub mod Items
pub mod Body
pub mod Codec
pub mod Make
pub mod Shrinks
pub mod GetTrip
pub mod ResponseTrip
