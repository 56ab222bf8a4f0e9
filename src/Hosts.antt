-- ===== src/Hosts.antt =====
-- The vehicles that the bus and emergency vehicle applications serve (application/TSP,
-- application/EVSP).
mod Tests
pub mod ByName
pub mod Tsp
pub mod Bus
pub mod Links
pub mod Evsp
pub mod Emergency
