-- ===== src/Memory/Stack/Guard.antt =====
-- Which pages of a new stack the page fault handler maps.
use pentagon.Prelude.{
  ◌≢◌, ◌⊎◌, inl, inr, Bool-cases, ap, ℕ, suc, ◌+◌, ◌-◌, ◌*◌, ◌<◌, ◌≤◌, ◌≡◌, refl, arith, true,
  false, Option, none, some, ltb, leb, done,
}
use pentagon.Util.ListEntry.{list_add, list_add_internal, EntryRef, list_is_empty, list_pop}
use pentagon.Memory.Vmm.{Vmm, PageAllocator, check_failed}
use pentagon.Memory.Vmm.Fault.{
  stack_pool_start, stack_pool_end, megabyte_of, vmm_page_fault_handler,
}
use pentagon.Memory.Vmm.Level.{Ends, Allocates}
use pentagon.Memory.Vmm.Access.{Accessible, OnDemand, vmm_page_fault_handler-Accessible}
use pentagon.Memory.Stack.{free_stack, Stacks, alloc_stack}

-- The stacks that were handed out so far.
pub record IsValid (k : ℕ) (s : Stacks) : Type 0 where
  pub next : s.m_next_stack ≡ stack_pool_start + k * (3 * 1048576)
  pub room : k ≤ 65535

-- What a fault in the stack below `top` does: in the upper megabyte it makes the address accessible
-- unless the handler answers an error, the lower one is refused, and so is every fault on a present
-- page.
pub record Faults {A : Type 0} (m : PageAllocator A) (top : ℕ) (v : Vmm A) : Type 0 where
  pub upper :
      (a : ℕ)
      → top ≤ a + 1048576
      → a < top
      → Ends (Accessible a v) (vmm_page_fault_handler m a false v)
  pub lower :
      (a : ℕ)
      → top ≤ a + 2 * 1048576
      → a + 1048576 < top
      → vmm_page_fault_handler m a false v ≡ done (check_failed, v)
  pub present :
      (a : ℕ)
      → top ≤ a + 2 * 1048576
      → a < top
      → vmm_page_fault_handler m a true v ≡ done (check_failed, v)

abbrev pub FaultsOf : {A : Type 0} → PageAllocator A → Vmm A → Option ℕ → Type 0
FaultsOf m v none = Unit
FaultsOf m v (some top) = Faults m top v

upper-OnDemand :
    (k a : ℕ)
    → k < 65535
    → stack_pool_start + k * (3 * 1048576) + 2 * 1048576 ≤ a + 1048576
    → a < stack_pool_start + k * (3 * 1048576) + 2 * 1048576
    → OnDemand a
unfolding megabyte_of
upper-OnDemand k a lt up dn =
    inr (omega (arith, up), omega (arith, dn, lt), ground (arith, up, dn, lt))

new_stack-Faults :
    {A : Type 0} (m : PageAllocator A) (v : Vmm A) (k : ℕ)
    → Allocates m
    → k < 65535
    → Faults m (stack_pool_start + k * (3 * 1048576) + 2 * 1048576) v
unfolding vmm_page_fault_handler megabyte_of
new_stack-Faults m v k law lt = record {
  upper = λ a up dn. vmm_page_fault_handler-Accessible m a v law (upper-OnDemand k a lt up dn);
  lower = λ a up dn. ground (arith, up, dn, lt);
  present = λ a up dn. ground (arith, up, dn, lt);
}

-- The next stack of the pool, or that the pool is used up.
abbrev pub NextStack :
    {A : Type 0} → PageAllocator A → Vmm A → ℕ → Stacks → Option ℕ × Stacks → Type 0
NextStack m v k s r =
    ((k < 65535)
      × (r.0 ≡ some (stack_pool_start + k * (3 * 1048576) + 2 * 1048576))
      × FaultsOf m v r.0
      × IsValid (suc k) r.1)
    ⊎ ((k ≡ 65535) × (r ≡ (none, s)))

-- With no free stack, `alloc_stack` of a pool of which `k` stacks were handed out hands out the next one
-- above them, until the pool is used up; the last place of the pool is never handed out. With an
-- allocator whose frames lie in physical memory, a fault on an absent page of the new stack's upper
-- megabyte makes the address mapped and its page writeable and not executable, unless the handler
-- answers an error; one in its lower megabyte is refused, and so is every fault on a present page.
pub alloc_stack-NextStack :
    {A : Type 0} (m : PageAllocator A) (v : Vmm A) (head : EntryRef) (k : ℕ) (s : Stacks)
    → Allocates m
    → IsValid k s
    → list_is_empty s.entries head ≡ true
    → NextStack m v k s (alloc_stack head s)
unfolding alloc_stack list_pop
alloc_stack-NextStack m v head k s law h e = elim (Bool-cases (ltb k 65535)) [
  | inl lt ↦
      let below : k < 65535 = ground (arith, lt) in
      let go : leb stack_pool_end (s.m_next_stack + 3 * 1048576) ≡ false =
        ground (arith, h.next, below) in
      inl (
        below,
        rw (e, go) (ap some (ap (λ n. n + 2 * 1048576) h.next)),
        rw (e, go) (rw h.next (new_stack-Faults m v k law below)),
        rw (e, go) (record { next = omega (arith, h.next); room = below }),
      )
  | inr ge ↦
      let full : k ≡ 65535 = ground (arith, ge, h.room) in
      let stop : leb stack_pool_end (s.m_next_stack + 3 * 1048576) ≡ true =
        ground (arith, h.next, full) in
      inr (full, rw (e, stop) refl)
]

-- A stack that is freed while no other one is free is the next that is handed out.
pub free_stack-alloc_stack :
    (head : EntryRef) (stack : ℕ) (s : Stacks)
    → s.entries.next head ≡ head
    → s.entries.prev head ≡ head
    → 16 ≤ stack
    → stack - 16 ≢ head
    → (alloc_stack head (free_stack head stack s)).0 ≡ some stack
unfolding alloc_stack free_stack list_pop list_add list_add_internal list_is_empty
free_stack-alloc_stack head stack s n b le ne = ground (arith, n, b, le, ne)
