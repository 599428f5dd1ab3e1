-- ===== src/Util.antt =====
-- kernel/util: the doubly linked lists, and blocks of memory.
pub mod String
pub mod ListEntry
