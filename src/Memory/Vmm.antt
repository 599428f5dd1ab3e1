-- ===== src/Memory/Vmm.antt =====
-- kernel/mem/vmm.c: the page tables. The recursive mapping, slot 510 of the highest table, shows all
-- tables as one array, `PAGE_TABLE_PML1`: the arrays `PAGE_TABLE_PML2` to `PAGE_TABLE_PML4` are parts
-- of it, each in the slot 510 of the one before.
pub mod Walk
pub mod Level
pub mod Map
pub mod Range
pub mod Unmap
pub mod Back
pub mod Fault
pub mod Alloc
pub mod Access
use pentagon.Prelude.{
  ◌++◌, ◌||◌, ℕ, zero, suc, ◌+◌, ◌*◌, ◌/◌, ◌%◌, ◌^◌, Bool, true, false, not, ◌&&◌, Option, none,
  some, List, [], ◌∷◌, ltb, leb, ◌==◌, if◌then◌else◌, update, Outcome, done, panic, waits, and_then,
}

-- The bits of a `page_entry_t` that the code writes; the frame has 40 bits.
pub record PageEntry : Type 0 where
  pub present : Bool
  pub writeable : Bool
  pub no_execute : Bool
  pub frame : ℕ

abbrev pub no_entry : PageEntry
no_entry = record { present = false; writeable = false; no_execute = false; frame = 0 }

abbrev pub frame_of : ℕ → ℕ
frame_of pa = pa / 4096 % 2 ^ 40

pub record Perms : Type 0 where
  pub map_write : Bool
  pub map_exec : Bool
  pub map_unmap_direct : Bool

pub data Err : Type 0 where
  no_error check_failed out_of_memory : Err

-- Where the frames come from: `early_alloc_page_phys` at first, then `palloc`; no frame is none, and
-- `early_alloc_page_phys` stops the kernel instead. `A` is the allocator's state.
pub record PageAllocator (A : Type 0) : Type 0 where
  pub alloc_page : A → Outcome (Option ℕ × A)

-- All tables as `PAGE_TABLE_PML1` shows them, the state of the allocator, and the addresses that
-- `__invlpg` was called with.
pub record Vmm (A : Type 0) : Type 0 where
  pub entries : ℕ → PageEntry
  pub allocator : A
  pub flushed : List ℕ

abbrev pub pml1 : ℕ → ℕ
pml1 va = va / 2 ^ 12 % 2 ^ 36

abbrev pub pml2 : ℕ → ℕ
pml2 va = va / 2 ^ 21 % 2 ^ 27

abbrev pub pml3 : ℕ → ℕ
pml3 va = va / 2 ^ 30 % 2 ^ 18

abbrev pub pml4 : ℕ → ℕ
pml4 va = va / 2 ^ 39 % 2 ^ 9

-- Where in `PAGE_TABLE_PML1` the arrays `PAGE_TABLE_PML1` to `PAGE_TABLE_PML4` begin.
abbrev pub table_start : ℕ → ℕ
table_start level =
    if level == 1
    then 0
    else (if level == 2 then 68451041280 else (if level == 3 then 68584734720 else 68584995840))

-- The first address of each array: 0xFFFFFF0000000000 for `PAGE_TABLE_PML1`, and 8 bytes an entry.
abbrev pub table_base : ℕ → ℕ
table_base level = 18446742974197923840 + 8 * table_start level

-- An entry of an array.
abbrev pub entry_at : {A : Type 0} → ℕ → ℕ → Vmm A → PageEntry
entry_at level i s = s.entries (table_start level + i)

abbrev pub direct_map_start : ℕ
direct_map_start = 18446603336221196288

abbrev pub direct_map_size : ℕ
direct_map_size = 549755813888

abbrev pub invalid_phys_addr : ℕ
invalid_phys_addr = 18446744073709551615

abbrev pub set_entry : {A : Type 0} → ℕ → ℕ → PageEntry → Vmm A → Vmm A
set_entry level i e s = record s { entries = update s.entries (table_start level + i) e }

abbrev pub invlpg : {A : Type 0} → ℕ → Vmm A → Vmm A
invlpg va s = record s { flushed = va ∷ s.flushed }

-- `memset(page, 0, PAGE_SIZE)` on the `i`-th page of a table.
abbrev pub clear_page : {A : Type 0} → ℕ → ℕ → Vmm A → Vmm A
clear_page level i s = record s {
  entries = λ j. if j / 512 == table_start level / 512 + i then no_entry else s.entries j;
}

unfoldable pub vmm_is_mapped : {A : Type 0} → Vmm A → ℕ → Bool
vmm_is_mapped s va =
    (entry_at 4 (pml4 va) s).present
    && ((entry_at 3 (pml3 va) s).present
        && ((entry_at 2 (pml2 va) s).present && (entry_at 1 (pml1 va) s).present))

-- The four tests of the code are those of `vmm_is_mapped`.
abbrev pub unmap_at : {A : Type 0} → ℕ → Vmm A → Vmm A
unmap_at va s = if vmm_is_mapped s va then invlpg va (set_entry 1 (pml1 va) no_entry s) else s

-- `PHYS_TO_DIRECT` asserts that the address is in the direct map.
unfoldable pub unmap_direct_page : {A : Type 0} → ℕ → Vmm A → Outcome (Vmm A)
unmap_direct_page pa s =
    let unmapped = unmap_at (pa + direct_map_start) s in
    if leb pa direct_map_size then done unmapped else panic

abbrev pub found_page : {A : Type 0} → Option ℕ → Vmm A → Outcome (Option ℕ × Vmm A)
found_page none s = done (none, s)
found_page (some pa) s = and_then (unmap_direct_page pa s) (λ s'. done (some pa, s'))

unfoldable pub vmm_alloc_page : {A : Type 0} → PageAllocator A → Vmm A → Outcome (Option ℕ × Vmm A)
vmm_alloc_page m s =
    and_then (m.alloc_page s.allocator) (λ r. found_page r.0 (record s { allocator = r.1 }))

-- `CHECK` of a result: the rest runs only without an error.
abbrev pub check : {S : Type 0} → Outcome (Err × S) → (S → Outcome (Err × S)) → Outcome (Err × S)
check (done (no_error, s)) f = f s
check (done (check_failed, s)) f = done (check_failed, s)
check (done (out_of_memory, s)) f = done (out_of_memory, s)
check panic f = panic
check waits f = waits

-- The page is entered and cleared in the table below.
abbrev pub enter_page : {A : Type 0} → ℕ → ℕ → ℕ → Option ℕ × Vmm A → Outcome (Err × Vmm A)
enter_page level next i (none, s) = done (out_of_memory, s)
enter_page level next i (some pa, s) =
    let e : PageEntry = record {
      present = true;
      writeable = true;
      no_execute = false;
      frame = frame_of pa;
    } in
    done (no_error, clear_page next i (invlpg (table_base next + i * 4096) (set_entry level i e s)))

unfoldable pub vmm_setup_level :
    {A : Type 0} → PageAllocator A → ℕ → ℕ → ℕ → Vmm A → Outcome (Err × Vmm A)
vmm_setup_level m level next i s =
    let setup = and_then (vmm_alloc_page m s) (enter_page level next i) in
    if not (entry_at level i s).present then setup else done (no_error, s)

abbrev pub leaf : ℕ → Perms → PageEntry
leaf pa perms = record {
  present = true;
  writeable = perms.map_write;
  no_execute = not perms.map_exec;
  frame = frame_of pa;
}

abbrev pub unmap_if : {A : Type 0} → Bool → ℕ → Vmm A → Outcome (Err × Vmm A)
unmap_if false pa s = done (no_error, s)
unmap_if true pa s = and_then (unmap_direct_page pa s) (λ s'. done (no_error, s'))

-- The body of the loop of `do_map`.
unfoldable pub map_page :
    {A : Type 0} → PageAllocator A → ℕ → ℕ → Perms → Vmm A → Outcome (Err × Vmm A)
map_page m pa va perms s = check (vmm_setup_level m 4 3 (pml4 va) s) (λ s.
    check (vmm_setup_level m 3 2 (pml3 va) s) (λ s. check (vmm_setup_level m 2 1 (pml2 va) s) (λ s.
      unmap_if perms.map_unmap_direct pa (invlpg va (set_entry 1 (pml1 va) (leaf pa perms) s)))))

-- The loop of `do_map`, up to `end`; as many rounds as there are pages are enough.
unfoldable pub map_pages :
    {A : Type 0} → PageAllocator A → ℕ → ℕ → ℕ → ℕ → Perms → Vmm A → Outcome (Err × Vmm A)
map_pages m zero pa va end perms s = if ltb va end then waits else done (no_error, s)
map_pages m (suc f) pa va end perms s =
    let step =
      check (map_page m pa va perms s)
        (map_pages m f ((pa + 4096) % 2 ^ 64) ((va + 4096) % 2 ^ 64) end perms) in
    if ltb va end then step else done (no_error, s)

unfoldable pub do_map :
    {A : Type 0} → PageAllocator A → ℕ → ℕ → ℕ → Perms → Vmm A → Outcome (Err × Vmm A)
do_map m pa va page_count perms s =
    let loop = map_pages m page_count pa va ((va + page_count * 4096) % 2 ^ 64) perms s in
    if not (va % 4096 == 0) || not (pa % 4096 == 0) then done (check_failed, s) else loop

-- The arrays are read through the tables above: without them the read faults.
abbrev pub has_table : {A : Type 0} → Vmm A → ℕ → Bool
has_table s i =
    (entry_at 4 (i / 2 ^ 27) s).present
    && ((entry_at 3 (i / 2 ^ 18) s).present && (entry_at 2 (i / 2 ^ 9) s).present)

-- The loop of `vmm_unmap` over the indices of the last table, with what it writes to `phys`.
unfoldable pub unmap_entries : {A : Type 0} → ℕ → ℕ → Vmm A → List ℕ → Outcome (List ℕ × Vmm A)
unmap_entries zero i s phys = done (phys, s)
unmap_entries (suc n) i s phys =
    let e = entry_at 1 i s in
    let gone = unmap_entries n (i + 1) (set_entry 1 i no_entry s) (phys ++ (e.frame * 4096 ∷ [])) in
    let kept = unmap_entries n (i + 1) s (phys ++ (invalid_phys_addr ∷ [])) in
    if not (has_table s i) then panic else (if e.present then gone else kept)

unfoldable pub vmm_unmap : {A : Type 0} → ℕ → ℕ → Vmm A → Outcome (List ℕ × Vmm A)
vmm_unmap va page_count s = unmap_entries page_count (pml1 va) s []
