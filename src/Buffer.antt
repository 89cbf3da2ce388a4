-- ===== src/Buffer.antt =====
-- The hybrid buffer, buffer/hybridbuffer: chunks on disk, their accounting, and the two queues.
pub mod Disk
pub mod Operator
pub mod Manager
pub mod Bufferer
pub mod Accounting
pub mod Sound
pub mod Steps
pub mod Stored
pub mod Settled
pub mod Shutdown
pub mod Space
mod Tests
