-- ===== src/Status.antt =====
-- The status of the signal, as the frames from the controller report it
-- (src/traffic_signal_status_updating.c).
mod Tests
pub mod Update
pub mod Plans
pub mod Decode
pub mod Mismatch
pub mod Clock
pub mod Segments
pub mod Readers
