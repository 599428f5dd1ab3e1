-- ===== src/Waitable.antt =====
-- kernel/thread/waitable.c: the wait queues and the channels of the kernel.
pub mod WaitQueue
pub mod Channel
pub mod Close
pub mod Select
mod Tests
