-- ===== src/Compensation.antt =====
-- How the compensation is shared out (src/traffic_compensation.c).
mod Tests
pub mod Share
pub mod Order
pub mod Cycles
pub mod Conserve
pub mod Limits
pub mod Start
pub mod Align
pub mod Compose
