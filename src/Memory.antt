-- ===== src/Memory.antt =====
-- kernel/mem: the virtual memory of the kernel.
pub mod Vmm
pub mod Stack
mod Tests
