-- ===== src/BufferRing.antt =====
-- The ring of received buffers (src/buffer.c).
mod Tests
pub mod Ring
pub mod Window
pub mod Queue
pub mod Trace
