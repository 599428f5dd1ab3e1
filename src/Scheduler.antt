-- ===== src/Scheduler.antt =====
-- kernel/thread/scheduler.c: run queues.
pub mod ThreadQueue
pub mod RunQueue
pub mod GlobalQueue
pub mod Steal
pub mod RandomOrder
pub mod Suspend
mod Tests
