-- ===== src/CommandBuffer.antt =====
-- src/traffic_signal_command_buffer.c: the commands of the applications for the next subphases,
-- kept per cycle and subphase, and sent to the controller when their time comes.
mod Tests
mod PollTests
pub mod Sample
pub mod State
pub mod Slots
pub mod Insert
pub mod Accept
pub mod Outcome
pub mod Green
pub mod Resume
pub mod Send
pub mod Loop
pub mod Polling
pub mod Once
pub mod Poll
pub mod Crossing
pub mod Sound
pub mod Reach
pub mod Total
pub mod Served
