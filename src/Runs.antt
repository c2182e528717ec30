-- ===== src/Runs.antt =====
-- The theorems at concrete inputs.
mod Wire
mod Table
mod Walk
mod Mibs
mod Interfaces
mod Sensors
mod Queues
mod Sessions
mod Session
mod Address
