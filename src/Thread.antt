-- ===== src/Thread.antt =====
-- kernel/thread/thread.c: the free threads, the cache of waiting threads, the registers of a thread.
pub mod FreeThreads
pub mod WaitingCache
mod Tests
