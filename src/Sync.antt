-- ===== src/Sync.antt =====
-- crs/semaphore.cpp, crs/barrier.cpp and their headers: counters under a mutex with a condition
-- variable. The mutex makes each stretch between two waits one step; threads are counted.
pub mod Semaphore
pub mod Barrier
mod Tests
