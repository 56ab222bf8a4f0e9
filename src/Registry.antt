-- ===== src/Registry.antt =====
-- The applications and their callbacks (src/application_registration.c), and the packets of the
-- cloud that reach them (src/com_packet_processing.c).
pub mod Apps
pub mod Lists
pub mod Register
pub mod Messages
pub mod Sound
pub mod Cloud
mod Tests
