-- ===== src/Locks.antt =====
-- The locks of lib/includes, run by any number of threads.
pub mod SpinLock
pub mod ClhLock
mod Tests
