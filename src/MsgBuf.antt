-- ===== src/MsgBuf.antt =====
-- The message buffers that the packets are written to and read from (src/byte_processing.c).
pub mod Bytes
pub mod Fields
pub mod Report
mod Tests
