-- ===== src/TibQueue.antt =====
-- The queues of messages that the TIB application broadcasts (application/TIB/src/TIB_queue.c).
mod Tests
pub mod Queue
pub mod Kinds
pub mod Fifo
pub mod Threads
pub mod Trace
