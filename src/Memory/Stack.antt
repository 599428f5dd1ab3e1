-- ===== src/Memory/Stack.antt =====
-- kernel/mem/stack.c: the stacks of the threads, three megabytes of addresses each. The byte below the
-- stack that `alloc_stack` touches at the end is left to the page fault handler.
pub mod Guard
use pentagon.Prelude.{ℕ, ◌+◌, ◌-◌, ◌*◌, Option, none, some, leb, if◌then◌else◌}
use pentagon.Util.ListEntry.{EntryRef, Entries, list_add, list_pop}
use pentagon.Memory.Vmm.Fault.{stack_pool_end}

-- `m_next_stack`, and the links of the free stacks, whose list head is `m_stack_free_list`.
pub record Stacks : Type 0 where
  pub m_next_stack : ℕ
  pub entries : Entries

-- A free stack's entry is right below it: 16 bytes.
abbrev pub popped_stack : Option EntryRef × Entries → Stacks → Option ℕ × Stacks
popped_stack (some entry, es) s = (some (entry + 16), record s { entries = es })
popped_stack (none, es) s =
    if leb stack_pool_end (s.m_next_stack + 3 * 1048576) then (none, s) else (
      some (s.m_next_stack + 2 * 1048576),
      record s { m_next_stack = s.m_next_stack + 3 * 1048576 },
    )

unfoldable pub alloc_stack : EntryRef → Stacks → Option ℕ × Stacks
alloc_stack m_stack_free_list s = popped_stack (list_pop s.entries m_stack_free_list) s

unfoldable pub free_stack : EntryRef → ℕ → Stacks → Stacks
free_stack m_stack_free_list stack s = record s {
  entries = list_add s.entries m_stack_free_list (stack - 16);
}
