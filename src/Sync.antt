-- ===== src/Sync.antt =====
-- kernel/sync: the semaphore.
pub mod Semaphore
pub mod Mutex
pub mod WaitGroup
pub mod NotifyList
mod Tests
