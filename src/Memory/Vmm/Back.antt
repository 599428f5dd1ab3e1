-- ===== src/Memory/Vmm/Back.antt =====
-- From `do_map` through `vmm_is_mapped` and `vmm_unmap` back.
use pentagon.Prelude.{
  ◌∙◌, ℕ, zero, suc, ◌+◌, ◌*◌, ◌%◌, ◌^◌, ◌<◌, ◌≤◌, ◌≡◌, ◌⊎◌, refl, ap, ap₂, arith, Bool, true,
  false, none, some, is_some, List, [], ◌∷◌, Bool-cases, inl, inr,
}
use pentagon.Memory.Vmm.{
  has_table, PageEntry, Perms, Vmm, pml1, Err, no_error, check_failed, out_of_memory, PageAllocator,
  leaf, vmm_is_mapped, unmap_entries, vmm_unmap, do_map,
}
use pentagon.Memory.Vmm.Walk.{Ordinary, page_at, vmm_is_mapped-page_at}
use pentagon.Memory.Vmm.Level.{Ends, Allocates}
use pentagon.Memory.Vmm.Map.{Ends-weaken}
use pentagon.Memory.Vmm.Range.{Progress, RangeMapped, InRange, do_map-RangeMapped}
use pentagon.Memory.Vmm.Unmap.{AllOrdinary, phys_of, phys_list, Unmapped, unmap_entries-Unmapped}

-- The frames of a range from `pa` on.
abbrev pub frames_from : ℕ → ℕ → List ℕ
frames_from pa zero = []
frames_from pa (suc c) = pa ∷ frames_from (pa + 4096) c

phys_list-Progress :
    {A : Type 0} (c n pa : ℕ) (perms : Perms) (s : Vmm A)
    → ((i : ℕ) → i < c → page_at s (n + i) ≡ some (leaf (pa + i * 4096) perms))
    → pa % 4096 ≡ 0
    → pa + c * 4096 ≤ 2 ^ 52
    → phys_list s n c ≡ frames_from pa c
unfolding phys_list
phys_list-Progress zero n pa perms s mapped a lt = refl
phys_list-Progress (suc c) n pa perms s mapped a lt =
    let place : n + 0 ≡ n = omega arith in
    let base : pa + 0 * 4096 ≡ pa = omega arith in
    let here : page_at s n ≡ some (leaf pa perms) = rw (place, base) at (mapped 0 (omega arith)) in
    let frame : phys_of (some (leaf pa perms)) ≡ pa = omega (arith, a, lt) in
    ap₂ (λ (x : ℕ) (xs : List ℕ). x ∷ xs) (ap phys_of here ∙ frame)
      (phys_list-Progress c (n + 1) (pa + 4096) perms s
        (λ i less.
          let step : (n + 1) + i ≡ n + suc i = omega arith in
          let frame' : (pa + 4096) + i * 4096 ≡ pa + suc i * 4096 = omega arith in
          rw (step, frame') (mapped (suc i) (omega (arith, less))))
        (omega (arith, a)) (omega (arith, lt)))

page_at-has_table :
    {A : Type 0} (s : Vmm A) (n : ℕ) (e : PageEntry) → page_at s n ≡ some e → has_table s n ≡ true
page_at-has_table s n e h = elim (Bool-cases (has_table s n)) [
  | inl t ↦ t
  | inr f ↦ let never : none ≡ some e = rw f at h in absurd cc
]

-- Every address of the pages from `n` on, `count` of them, is mapped, or is not.
abbrev pub AllMapped : {A : Type 0} → Bool → ℕ → ℕ → Vmm A → Type 0
AllMapped b n count s = (i va : ℕ) → i < count → pml1 va ≡ n + i → vmm_is_mapped s va ≡ b

AllMapped-gone :
    {A : Type 0} (n count : ℕ) (s : Vmm A)
    → ((i : ℕ) → i < count → page_at s (n + i) ≡ none)
    → AllMapped false n count s
AllMapped-gone n count s gone i va lt e =
    vmm_is_mapped-page_at s va ∙ ap is_some (ap (page_at s) e ∙ gone i lt)

AllMapped-mapped :
    {A : Type 0} (n pa : ℕ) (perms : Perms) (count : ℕ) (s s' : Vmm A)
    → Progress n pa perms count s s'
    → AllMapped true n count s'
AllMapped-mapped n pa perms count s s' p i va lt e =
    vmm_is_mapped-page_at s' va ∙ ap is_some (ap (page_at s') e ∙ p.mapped i lt)

-- After `do_map` without an error, the range is mapped, and unmapping it answers its frames, leaves
-- none of its addresses mapped and every other ordinary page as it was before.
abbrev pub MappedAndBack : {A : Type 0} → ℕ → ℕ → ℕ → Vmm A → Err × Vmm A → Type 0
MappedAndBack va pa count s (no_error, s') =
    AllMapped true (pml1 va) count s'
    × Ends
        (λ r.
          (r.0 ≡ frames_from pa count)
          × AllMapped false (pml1 va) count r.1
          × ((k : ℕ)
              → Ordinary k
              → (k < pml1 va) ⊎ (pml1 va + count ≤ k)
              → page_at r.1 k ≡ page_at s k))
        (vmm_unmap va count s')
MappedAndBack va pa count s (check_failed, s') = ⊥
MappedAndBack va pa count s (out_of_memory, s') = Unit

Progress-MappedAndBack :
    {A : Type 0} (pa va count : ℕ) (perms : Perms) (s : Vmm A) (r : Err × Vmm A)
    → pa % 4096 ≡ 0
    → pa + count * 4096 ≤ 2 ^ 52
    → AllOrdinary (pml1 va) count
    → RangeMapped (pml1 va) pa perms count s r
    → MappedAndBack va pa count s r
unfolding vmm_unmap
Progress-MappedAndBack {A} pa va count perms s (no_error, s') a lt o p = (
  AllMapped-mapped (pml1 va) pa perms count s s' p,
  Ends-weaken (Unmapped (pml1 va) count s' [])
      (λ (r : List ℕ × Vmm A).
        (r.0 ≡ frames_from pa count)
        × AllMapped false (pml1 va) count r.1
        × ((k : ℕ)
            → Ordinary k
            → (k < pml1 va) ⊎ (pml1 va + count ≤ k)
            → page_at r.1 k ≡ page_at s k))
      (unmap_entries count (pml1 va) s' [])
      (λ r u. (
        u.frames ∙ phys_list-Progress count (pml1 va) pa perms s' p.mapped a lt,
        AllMapped-gone (pml1 va) count r.1 u.gone,
        λ k p0 h. u.others k p0 h ∙ p.others k p0 h,
      ))
      (unmap_entries-Unmapped count (pml1 va) s' [] o (λ i less.
        page_at-has_table s' (pml1 va + i) (leaf (pa + i * 4096) perms) (p.mapped i less))),
)
Progress-MappedAndBack pa va count perms s (check_failed, s') a lt o p = p
Progress-MappedAndBack pa va count perms s (out_of_memory, s') a lt o p = tt

-- With an allocator whose frames lie in physical memory, `do_map` of a page-aligned range of ordinary
-- pages, those outside the direct map and the recursive slot, ends with no error or out of memory;
-- without an error the range is mapped, and `vmm_unmap` then answers its frames in order, leaves none
-- of its addresses mapped and every other ordinary page as it was before the two calls.
pub do_map-vmm_unmap :
    {A : Type 0} (m : PageAllocator A) (pa va count : ℕ) (perms : Perms) (s : Vmm A)
    → Allocates m
    → va % 4096 ≡ 0
    → pa % 4096 ≡ 0
    → pa + count * 4096 ≤ 2 ^ 52
    → InRange pa va count perms
    → Ends (MappedAndBack va pa count s) (do_map m pa va count perms s)
do_map-vmm_unmap m pa va count perms s law a b lt h =
    Ends-weaken (RangeMapped (pml1 va) pa perms count s) (MappedAndBack va pa count s)
      (do_map m pa va count perms s)
      (λ r. Progress-MappedAndBack pa va count perms s r b lt h.ordinary)
      (do_map-RangeMapped m pa va count perms s law a b h)
