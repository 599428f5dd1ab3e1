-- ===== src/Memory/Vmm/Alloc.antt =====
-- `vmm_alloc` against the pages of its range, and an address after its page fault.
use pentagon.Prelude.{
  ◌∙◌, ℕ, zero, suc, ◌+◌, ◌*◌, ◌%◌, ◌^◌, ◌<◌, ◌≤◌, ◌≡◌, ◌≢◌, ◌⊎◌, refl, sym, ap, subst, arith, true,
  false, not, Option, none, some, ltb, and_then, inl, inr,
}
use pentagon.Memory.Vmm.{
  PageEntry, Perms, Vmm, pml1, Err, no_error, check_failed, out_of_memory, PageAllocator,
  vmm_alloc_page, do_map,
}
use pentagon.Memory.Vmm.Walk.{page_at, Ordinary}
use pentagon.Memory.Vmm.Level.{
  Ends, Allocates, SameBut, SameBut-page_at, InMemory, vmm_alloc_page-Ends, and_then-Ends,
}
use pentagon.Memory.Vmm.Map.{Ends-weaken, check-Ends}
use pentagon.Memory.Vmm.Range.{RangeMapped, do_map-RangeMapped}
use pentagon.Memory.Vmm.Fault.{map_found, alloc_pages, vmm_alloc}

-- The page has some frame, with the permissions.
abbrev pub Backed : Perms → Option PageEntry → Type 0
Backed perms none = ⊥
Backed perms (some e) =
    (e.present ≡ true) × (e.writeable ≡ perms.map_write) × (e.no_execute ≡ not perms.map_exec)

-- The pages from `n` on, `count` of them, are backed if there was no error; no other ordinary page
-- changed.
pub record Alloced {A : Type 0} (n : ℕ) (perms : Perms) (count : ℕ) (s : Vmm A) (r : Err × Vmm A)
    : Type 0 where
  pub backed : r.0 ≡ no_error → (i : ℕ) → i < count → Backed perms (page_at r.1 (n + i))
  pub others : (k : ℕ) → Ordinary k → (k < n) ⊎ (n + count ≤ k) → page_at r.1 k ≡ page_at s k

mapped_one :
    {A : Type 0} (n pa : ℕ) (perms : Perms) (s s1 : Vmm A) (r : Err × Vmm A)
    → SameBut s s1
    → RangeMapped n pa perms 1 s1 r
    → Alloced n perms 1 s r
mapped_one n pa perms s s1 (no_error, s') same p = record {
  backed = λ e i lt. subst (Backed perms) (sym (p.mapped i lt)) (refl, refl, refl);
  others = λ k o h. p.others k o h ∙ SameBut-page_at s s1 k same o;
}
mapped_one n pa perms s s1 (check_failed, s') same p = absurd p
mapped_one n pa perms s s1 (out_of_memory, s') same p = record {
  backed = λ e. absurd cc;
  others = λ k o h.
      p.1.1.others k o (elim h [ inl lt ↦ inl lt | inr le ↦ inr (omega (arith, le, p.1.0)) ])
      ∙ SameBut-page_at s s1 k same o;
}

map_found-Alloced :
    {A : Type 0} (m : PageAllocator A) (va : ℕ) (perms : Perms) (s : Vmm A) (r : Option ℕ × Vmm A)
    → Allocates m
    → va % 4096 ≡ 0
    → va + 4096 < 2 ^ 64
    → pml1 va + 1 < 2 ^ 36
    → Ordinary (pml1 va)
    → SameBut s r.1 × InMemory r
    → Ends (Alloced (pml1 va) perms 1 s) (map_found m va perms r)
map_found-Alloced m va perms s (none, s1) law a b c o h = record {
  backed = λ e. absurd cc;
  others = λ k out _. SameBut-page_at s s1 k h.0 out;
}
map_found-Alloced m va perms s (some pa, s1) law a b c o h =
    let frame = h.1.0 in
    let below = h.1.1 in
    Ends-weaken (RangeMapped (pml1 va) pa perms 1 s1) (Alloced (pml1 va) perms 1 s)
      (do_map m pa va 1 perms s1) (λ r. mapped_one (pml1 va) pa perms s s1 r h.0)
      (do_map-RangeMapped m pa va 1 perms s1 law a frame (record {
        va_end = b;
        pa_end = omega (arith, below);
        pages = c;
        ordinary =
            λ i lt. let same : pml1 va ≡ pml1 va + i = omega (arith, lt) in subst Ordinary same o;
        direct = λ e. below;
      }))

Alloced-Backed :
    {A : Type 0} (n : ℕ) (perms : Perms) (count : ℕ) (s s1 : Vmm A) (r : Err × Vmm A)
    → Ordinary n
    → Alloced n perms 1 s (no_error, s1)
    → Alloced (n + 1) perms count s1 r
    → r.0 ≡ no_error
    → (i : ℕ) → i < suc count
    → Backed perms (page_at r.1 (n + i))
Alloced-Backed n perms count s s1 r out first rest e zero lt =
    let place : n + 0 ≡ n = omega arith in
    let kept = rest.others n out (inl (omega arith)) in
    let here = first.backed refl 0 (omega arith) in
    subst (Backed perms) (sym (ap (page_at r.1) place ∙ kept))
      (subst (λ k. Backed perms (page_at s1 k)) place here)
Alloced-Backed n perms count s s1 r out first rest e (suc i) lt =
    let place : (n + 1) + i ≡ n + suc i = omega arith in
    subst (λ k. Backed perms (page_at r.1 k)) place (rest.backed e i (omega (arith, lt)))

Alloced-suc :
    {A : Type 0} (n : ℕ) (perms : Perms) (count : ℕ) (s s1 : Vmm A) (r : Err × Vmm A)
    → Ordinary n
    → Alloced n perms 1 s (no_error, s1)
    → Alloced (n + 1) perms count s1 r
    → Alloced n perms (suc count) s r
Alloced-suc n perms count s s1 r out first rest = record {
  backed = Alloced-Backed n perms count s s1 r out first rest;
  others = λ k o h.
      rest.others k o
        (elim h [ inl lt ↦ inl (omega (arith, lt)) | inr le ↦ inr (omega (arith, le)) ])
      ∙ first.others k o (elim h [ inl lt ↦ inl lt | inr le ↦ inr (omega (arith, le)) ]);
}

Alloced-stop :
    {A : Type 0} (n : ℕ) (perms : Perms) (count : ℕ) (s s1 : Vmm A) (e : Err)
    → e ≢ no_error
    → Alloced n perms 1 s (e, s1)
    → Alloced n perms (suc count) s (e, s1)
Alloced-stop n perms count s s1 e ne h = record {
  backed = λ ok. absurd (ne ok);
  others =
      λ k o out. h.others k o (elim out [ inl lt ↦ inl lt | inr le ↦ inr (omega (arith, le)) ]);
}

-- A page-aligned range of ordinary pages, with no wrap.
pub record AllocRange (va count : ℕ) : Type 0 where
  pub aligned : va % 4096 ≡ 0
  pub va_end : va + count * 4096 < 2 ^ 64
  pub pages : pml1 va + count < 2 ^ 36
  pub ordinary : (i : ℕ) → i < count → Ordinary (pml1 va + i)

AllocRange-suc :
    (va count : ℕ)
    → AllocRange va (suc count)
    → (pml1 (va + 4096) ≡ pml1 va + 1) × Ordinary (pml1 va) × AllocRange (va + 4096) count
AllocRange-suc va count h =
    let next : pml1 (va + 4096) ≡ pml1 va + 1 = omega (arith, h.pages) in
    let here : pml1 va + 0 ≡ pml1 va = omega arith in
    (
      next,
      subst Ordinary here (h.ordinary 0 (omega arith)),
      record {
        aligned = omega (arith, h.aligned);
        va_end = omega (arith, h.va_end);
        pages = omega (arith, h.pages, next);
        ordinary = λ i lt.
            let same : pml1 va + suc i ≡ pml1 (va + 4096) + i = omega (arith, next) in
            subst Ordinary same (h.ordinary (suc i) (omega (arith, lt)));
      },
    )

alloc_pages-Alloced :
    {A : Type 0} (m : PageAllocator A) (count va : ℕ) (perms : Perms) (s : Vmm A)
    → Allocates m
    → AllocRange va count
    → Ends (Alloced (pml1 va) perms count s) (alloc_pages m count va (va + count * 4096) perms s)
unfolding alloc_pages
alloc_pages-Alloced m zero va perms s law h =
    let stop : ltb va (va + 0 * 4096) ≡ false = ground arith in
    rw stop (record { backed = λ e i lt. absurd (omega (arith, lt)); others = λ k o _. refl })
alloc_pages-Alloced {A} m (suc f) va perms s law h =
    let n = pml1 va in
    let below = AllocRange-suc va f h in
    let go : ltb va (va + suc f * 4096) ≡ true = ground arith in
    let va' : (va + 4096) % 2 ^ 64 ≡ va + 4096 = omega (arith, h.va_end) in
    let end' : va + suc f * 4096 ≡ (va + 4096) + f * 4096 = omega arith in
    let again = alloc_pages m f (va + 4096) ((va + 4096) + f * 4096) perms in
    rw (go, va', end')
      (check-Ends (Alloced n perms 1 s) (Alloced n perms (suc f) s)
        (and_then (vmm_alloc_page m s) (map_found m va perms)) again
        (and_then-Ends (λ (r : Option ℕ × Vmm A). SameBut s r.1 × InMemory r) (Alloced n perms 1 s)
          (vmm_alloc_page m s) (map_found m va perms) (vmm_alloc_page-Ends m s law)
          (λ r k.
            map_found-Alloced m va perms s r law h.aligned (omega (arith, h.va_end))
              (omega (arith, h.pages)) below.1 k))
        (λ s1 first.
          Ends-weaken (Alloced (pml1 (va + 4096)) perms f s1) (Alloced n perms (suc f) s) (again s1)
            (λ r rest.
              Alloced-suc n perms f s s1 r below.1 first
                (subst (λ k. Alloced k perms f s1 r) below.0 rest))
            (alloc_pages-Alloced m f (va + 4096) perms s1 law below.2))
        (λ s1 k. Alloced-stop n perms f s s1 out_of_memory (λ e. cc) k)
        (λ s1 k. Alloced-stop n perms f s s1 check_failed (λ e. cc) k))

-- `vmm_alloc` of a page-aligned range of ordinary pages ends, with an allocator whose frames lie in
-- physical memory; without an error each page of the range has a frame with the permissions, and with
-- or without one no other ordinary page changes.
pub vmm_alloc-Alloced :
    {A : Type 0} (m : PageAllocator A) (va count : ℕ) (perms : Perms) (s : Vmm A)
    → Allocates m
    → AllocRange va count
    → Ends (Alloced (pml1 va) perms count s) (vmm_alloc m va count perms s)
unfolding vmm_alloc
vmm_alloc-Alloced m va count perms s law h =
    let end : (va + count * 4096) % 2 ^ 64 ≡ va + count * 4096 = omega (arith, h.va_end) in
    rw (h.aligned, end) (alloc_pages-Alloced m count va perms s law h)
