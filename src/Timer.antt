-- ===== src/Timer.antt =====
-- kernel/thread/timer.c and timer.h: the timers of a CPU.
pub mod Heap
pub mod Queue
pub mod Life
mod Tests
