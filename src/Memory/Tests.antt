-- ===== src/Memory/Tests.antt =====
-- The page tables and the stacks at concrete values.
use pentagon.Prelude.{
  [], ℕ, ◌+◌, ◌*◌, refl, inl, inr, arith, true, false, none, some, ltb, if◌then◌else◌, done,
  Bool-cases,
}
use pentagon.Util.ListEntry.{list_is_empty}
use pentagon.Memory.Vmm.{Vmm, PageAllocator, Perms, no_entry, do_map}
use pentagon.Memory.Vmm.Level.{Ends, Allocates}
use pentagon.Memory.Vmm.Range.{InRange}
use pentagon.Memory.Vmm.Back.{MappedAndBack, do_map-vmm_unmap}
use pentagon.Memory.Vmm.Fault.{vmm_page_fault_handler}
use pentagon.Memory.Vmm.Access.{Accessible, vmm_page_fault_handler-Accessible}
use pentagon.Memory.Stack.{Stacks, alloc_stack}
use pentagon.Memory.Stack.Guard.{NextStack, alloc_stack-NextStack}

-- A thousand frames, handed out in order.
abbrev some_frames : PageAllocator ℕ
some_frames = record {
  alloc_page = λ k. done (if ltb k 1000 then some (k * 4096) else none, k + 1);
}

some_frames-Allocates : Allocates some_frames
some_frames-Allocates k = elim (Bool-cases (ltb k 1000)) [
  | inl lt ↦ rw lt (omega arith, ground (arith, lt))
  | inr ge ↦ rw ge tt
]

-- Nothing is mapped.
abbrev no_pages : Vmm ℕ
no_pages = record { entries = λ i. no_entry; allocator = 1; flushed = [] }

abbrev code : Perms
code = record { map_write = false; map_exec = true; map_unmap_direct = true }

-- Two pages at the base address of the kernel.
two_pages-InRange : InRange 8192 18446744071562067968 2 code
two_pages-InRange = record {
  va_end = omega arith;
  pa_end = omega arith;
  pages = omega arith;
  ordinary = λ i lt. (omega (arith, lt), omega (arith, lt), omega (arith, lt));
  direct = λ e. omega arith;
}

do_map-vmm_unmap_example :
    Ends
      (MappedAndBack 18446744071562067968 8192 2 no_pages)
      (do_map some_frames 8192 18446744071562067968 2 code no_pages)
do_map-vmm_unmap_example =
    do_map-vmm_unmap some_frames 8192 18446744071562067968 2 code no_pages some_frames-Allocates
      refl refl (omega arith) two_pages-InRange

-- A fault in the kernel heap.
vmm_page_fault_handler-Accessible_example :
    Ends
      (Accessible 18446743525027479570 no_pages)
      (vmm_page_fault_handler some_frames 18446743525027479570 false no_pages)
vmm_page_fault_handler-Accessible_example =
    vmm_page_fault_handler-Accessible some_frames 18446743525027479570 no_pages
      some_frames-Allocates (inl (omega arith, omega arith))

-- The list of the free stacks is empty: its head, at 64, points at itself.
abbrev no_stacks : Stacks
no_stacks = record {
  m_next_stack = 18446603954696486912;
  entries = record { next = λ e. 64; prev = λ e. 64 };
}

alloc_stack-NextStack_example :
    NextStack some_frames no_pages 0 no_stacks (alloc_stack 64 no_stacks)
unfolding list_is_empty
alloc_stack-NextStack_example =
    alloc_stack-NextStack some_frames no_pages 64 0 no_stacks some_frames-Allocates
      (record { next = refl; room = omega arith }) refl
