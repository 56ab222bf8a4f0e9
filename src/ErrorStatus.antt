-- ===== src/ErrorStatus.antt =====
-- src/error_status.c: the bits of the error status. The timers that set the first and the fifth bit,
-- and the restart of the program after the fifth, are left out, and so is the locking.
pub mod Bits
pub mod Calls
