-- ===== src/Evsp.antt =====
-- The service of emergency vehicles: application/EVSP/src/EVSP.c and EVSP_subphase_threshold.c. The
-- lists of vehicles are those of Hosts/Evsp.antt.
pub mod Adjust
pub mod Answer
pub mod Activate
pub mod Round
pub mod Team
pub mod Running
pub mod Optimize
pub mod Sound
pub mod Receive
pub mod Found
pub mod Touching
pub mod Progress
pub mod Touch
pub mod Threshold
mod Tests
