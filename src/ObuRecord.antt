-- ===== src/ObuRecord.antt =====
-- src/OBU_record_processing.c: the records that the vehicles send, per vehicle.
pub mod Ring
pub mod Slots
pub mod Lists
pub mod Find
pub mod Distinct
pub mod Kept
pub mod Rows
pub mod Reach
pub mod Table
pub mod Granted
pub mod Newest
pub mod Message
pub mod Identity
pub mod Receive
mod Tests
