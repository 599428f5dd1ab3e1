-- ===== src/Memory/Vmm/Fault.antt =====
-- kernel/mem/vmm.c: `vmm_alloc` and the page fault handler, which maps the pages of the kernel heap and
-- of the stacks when they are touched.
use pentagon.Prelude.{
  ℕ, zero, suc, ◌+◌, ◌-◌, ◌*◌, ◌/◌, ◌%◌, ◌^◌, Bool, true, false, not, ◌&&◌, ◌||◌, Option, none,
  some, ltb, leb, ◌==◌, if◌then◌else◌, Outcome, done, waits, and_then,
}
use pentagon.Memory.Vmm.{
  Vmm, PageAllocator, Perms, Err, check, no_error, check_failed, vmm_alloc_page, do_map,
}

-- The `CHECK` of the page of one round, which is then mapped.
abbrev pub map_found :
    {A : Type 0} → PageAllocator A → ℕ → Perms → Option ℕ × Vmm A → Outcome (Err × Vmm A)
map_found m va perms (none, s) = done (check_failed, s)
map_found m va perms (some pa, s) = do_map m pa va 1 perms s

-- The loop of `vmm_alloc`, up to `end`; as many rounds as there are pages are enough.
unfoldable pub alloc_pages :
    {A : Type 0} → PageAllocator A → ℕ → ℕ → ℕ → Perms → Vmm A → Outcome (Err × Vmm A)
alloc_pages m zero va end perms s = if ltb va end then waits else done (no_error, s)
alloc_pages m (suc f) va end perms s =
    let step =
      check (and_then (vmm_alloc_page m s) (map_found m va perms))
        (alloc_pages m f ((va + 4096) % 2 ^ 64) end perms) in
    if ltb va end then step else done (no_error, s)

unfoldable pub vmm_alloc :
    {A : Type 0} → PageAllocator A → ℕ → ℕ → Perms → Vmm A → Outcome (Err × Vmm A)
vmm_alloc m va page_count perms s =
    let loop = alloc_pages m page_count va ((va + page_count * 4096) % 2 ^ 64) perms s in
    if not (va % 4096 == 0) then done (check_failed, s) else loop

abbrev pub kernel_heap_start : ℕ
kernel_heap_start = 18446743525027479552

abbrev pub kernel_heap_end : ℕ
kernel_heap_end = 18446743529322446848

abbrev pub stack_pool_start : ℕ
stack_pool_start = 18446603954696486912

abbrev pub stack_pool_end : ℕ
stack_pool_end = 18446604160854917120

abbrev pub on_demand : Perms
on_demand = record { map_write = true; map_exec = false; map_unmap_direct = true }

-- Which megabyte of the three of its stack an address is in.
unfoldable pub megabyte_of : ℕ → ℕ
megabyte_of fault = (fault - stack_pool_start) / 1048576 * 1048576 / 1048576 % 3

unfoldable pub vmm_page_fault_handler :
    {A : Type 0} → PageAllocator A → ℕ → Bool → Vmm A → Outcome (Err × Vmm A)
vmm_page_fault_handler m fault present s =
    let mapped = vmm_alloc m (fault / 4096 * 4096) 1 on_demand s in
    let refused = done (check_failed, s) in
    if leb kernel_heap_start fault && ltb fault kernel_heap_end
    then (if present then refused else mapped)
    else (if leb stack_pool_start fault && ltb fault stack_pool_end
        then (if present || (megabyte_of fault == 0) then refused else mapped)
        else refused)
