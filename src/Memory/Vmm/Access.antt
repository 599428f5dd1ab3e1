-- ===== src/Memory/Vmm/Access.antt =====
-- The page fault handler: which accesses it serves.
use pentagon.Prelude.{
  ◌∙◌, ℕ, ◌+◌, ◌*◌, ◌/◌, ◌<◌, ◌≤◌, ◌≡◌, ◌≢◌, ◌⊎◌, refl, sym, subst, arith, Bool, true, false, not,
  ◌&&◌, Option, none, some, is_some, ltb, leb, ◌==◌, done, inl, inr, Bool-cases,
}
use pentagon.Memory.Vmm.{
  PageEntry, Perms, Vmm, pml1, Err, no_error, check_failed, PageAllocator, vmm_is_mapped,
}
use pentagon.Memory.Vmm.Walk.{Ordinary, page_at, vmm_is_mapped-page_at}
use pentagon.Memory.Vmm.Level.{Ends, Allocates}
use pentagon.Memory.Vmm.Map.{Ends-weaken}
use pentagon.Memory.Vmm.Fault.{
  kernel_heap_start, kernel_heap_end, stack_pool_start, stack_pool_end, megabyte_of, on_demand,
  vmm_alloc, vmm_page_fault_handler,
}
use pentagon.Memory.Vmm.Alloc.{Backed, Alloced, AllocRange, vmm_alloc-Alloced}

-- The kernel heap, and the upper two of the three megabytes of each stack.
abbrev pub OnDemand : ℕ → Type 0
OnDemand a =
    ((kernel_heap_start ≤ a) × (a < kernel_heap_end))
    ⊎ ((stack_pool_start ≤ a) × (a < stack_pool_end) × (megabyte_of a ≢ 0))

OnDemand-AllocRange : (a : ℕ) → OnDemand a → AllocRange (a / 4096 * 4096) 1
OnDemand-AllocRange a (inl (lo, hi)) = record {
  aligned = omega arith;
  va_end = omega (arith, lo, hi);
  pages = omega (arith, lo, hi);
  ordinary =
      λ i lt. (omega (arith, lo, hi, lt), omega (arith, lo, hi, lt), omega (arith, lo, hi, lt));
}
OnDemand-AllocRange a (inr (lo, hi, ne)) = record {
  aligned = omega arith;
  va_end = omega (arith, lo, hi);
  pages = omega (arith, lo, hi);
  ordinary =
      λ i lt. (omega (arith, lo, hi, lt), omega (arith, lo, hi, lt), omega (arith, lo, hi, lt));
}

served :
    {A : Type 0} (m : PageAllocator A) (a : ℕ) (s : Vmm A)
    → OnDemand a
    → vmm_page_fault_handler m a false s ≡ vmm_alloc m (a / 4096 * 4096) 1 on_demand s
unfolding vmm_page_fault_handler
served m a s (inl (lo, hi)) = ground (arith, lo, hi)
served m a s (inr (lo, hi, ne)) = ground (arith, lo, hi, ne)

-- After the fault the address is mapped and its page writable, if there was no error; no other
-- ordinary page changed.
pub record Accessible {A : Type 0} (a : ℕ) (s : Vmm A) (r : Err × Vmm A) : Type 0 where
  pub mapped : r.0 ≡ no_error → vmm_is_mapped r.1 a ≡ true
  pub backed : r.0 ≡ no_error → Backed on_demand (page_at r.1 (pml1 a))
  pub others : (k : ℕ) → Ordinary k → k ≢ pml1 a → page_at r.1 k ≡ page_at s k

Backed-is_some : (perms : Perms) (o : Option PageEntry) → Backed perms o → is_some o ≡ true
Backed-is_some perms none h = absurd h
Backed-is_some perms (some e) h = refl

Alloced-Accessible :
    {A : Type 0} (a n : ℕ) (s : Vmm A) (r : Err × Vmm A)
    → n ≡ pml1 a
    → Alloced n on_demand 1 s r
    → Accessible a s r
Alloced-Accessible a n s r e h =
    let place : n + 0 ≡ pml1 a = omega (arith, e) in
    let backed = λ (ok : r.0 ≡ no_error).
      subst (λ k. Backed on_demand (page_at r.1 k)) place (h.backed ok 0 (omega arith)) in
    record {
      mapped = λ ok.
          vmm_is_mapped-page_at r.1 a ∙ Backed-is_some on_demand (page_at r.1 (pml1 a)) (backed ok);
      backed = backed;
      others = λ k out ne. h.others k out (elsewhere k n (λ same. ne (same ∙ e)));
    }
  where
    elsewhere : (k n : ℕ) → k ≢ n → (k < n) ⊎ (n + 1 ≤ k)
    elsewhere k n ne = ground (arith, ne)

-- With an allocator whose frames lie in physical memory, a fault on an absent page of the kernel heap
-- or of the upper two of the three megabytes of a stack's place makes the address mapped and its page
-- writeable and not executable, unless the handler answers an error; no other page outside the
-- direct map and the recursive slot changes.
pub vmm_page_fault_handler-Accessible :
    {A : Type 0} (m : PageAllocator A) (a : ℕ) (s : Vmm A)
    → Allocates m
    → OnDemand a
    → Ends (Accessible a s) (vmm_page_fault_handler m a false s)
vmm_page_fault_handler-Accessible m a s law h =
    let va = a / 4096 * 4096 in
    let same : pml1 va ≡ pml1 a = omega arith in
    subst (Ends (Accessible a s)) (sym (served m a s h)) (
      Ends-weaken (Alloced (pml1 va) on_demand 1 s) (Accessible a s) (vmm_alloc m va 1 on_demand s)
        (λ r. Alloced-Accessible a (pml1 va) s r same)
        (vmm_alloc-Alloced m va 1 on_demand s law (OnDemand-AllocRange a h)))

-- Every other fault, and one on a present page, is refused and changes nothing.
pub vmm_page_fault_handler-refused :
    {A : Type 0} (m : PageAllocator A) (a : ℕ) (present : Bool) (s : Vmm A)
    → (present ≡ true) ⊎ (¬ OnDemand a)
    → vmm_page_fault_handler m a present s ≡ done (check_failed, s)
unfolding vmm_page_fault_handler
vmm_page_fault_handler-refused m a present s (inl e) = ground (arith, e)
vmm_page_fault_handler-refused m a present s (inr never) =
    elim (Bool-cases (leb kernel_heap_start a && ltb a kernel_heap_end)) [
      | inl heap ↦ absurd (never (inl (ground (arith, heap), ground (arith, heap))))
      | inr outside ↦
          elim (Bool-cases
            (leb stack_pool_start a && ltb a stack_pool_end && not (megabyte_of a == 0))) [
              | inl stack ↦ absurd (
                  never (inr (ground (arith, stack), ground (arith, stack), ground (arith, stack))))
              | inr guard ↦ ground (arith, outside, guard)
            ]
    ]
