-- ===== src/Memory/Vmm/Range.antt =====
-- `do_map` against the pages of its range.
use pentagon.Prelude.{
  ◌∙◌, ℕ, zero, suc, ◌+◌, ◌*◌, ◌%◌, ◌^◌, ◌<◌, ◌≤◌, ◌≡◌, ◌≢◌, ◌⊎◌, refl, subst, arith, true, false,
  some, ltb, done, inl, inr,
}
use pentagon.Memory.Vmm.{
  Perms, Vmm, pml1, Err, no_error, check_failed, out_of_memory, PageAllocator, leaf, map_page,
  map_pages, do_map, direct_map_size,
}
use pentagon.Memory.Vmm.Walk.{page_at, Ordinary}
use pentagon.Memory.Vmm.Level.{Ends, Allocates}
use pentagon.Memory.Vmm.Map.{PageMapped, Kept, check-Ends, map_page-PageMapped, Ends-weaken}

-- The first `j` pages from page `n` are mapped to the frames from `pa`; no other ordinary page changed.
pub record Progress {A : Type 0} (n pa : ℕ) (perms : Perms) (j : ℕ) (s s' : Vmm A) : Type 0 where
  pub mapped : (i : ℕ) → i < j → page_at s' (n + i) ≡ some (leaf (pa + i * 4096) perms)
  pub others : (k : ℕ) → Ordinary k → (k < n) ⊎ (n + j ≤ k) → page_at s' k ≡ page_at s k

-- Without an error the whole range is mapped; if the frames run out, only its first pages.
abbrev pub RangeMapped : {A : Type 0} → ℕ → ℕ → Perms → ℕ → Vmm A → Err × Vmm A → Type 0
RangeMapped n pa perms count s (no_error, s') = Progress n pa perms count s s'
RangeMapped n pa perms count s (check_failed, s') = ⊥
RangeMapped n pa perms count s (out_of_memory, s') =
    (j : ℕ) × ((j < count) × Progress n pa perms j s s')

Progress-zero :
    {A : Type 0} (n pa : ℕ) (perms : Perms) (s s' : Vmm A) → Kept s s' → Progress n pa perms 0 s s'
Progress-zero n pa perms s s' kept = record {
  mapped = λ i lt. absurd (omega (arith, lt));
  others = λ k o h. kept k o;
}

Progress-mapped :
    {A : Type 0} (n pa : ℕ) (perms : Perms) (j : ℕ) (s s1 s' : Vmm A)
    → Ordinary n
    → PageMapped n (leaf pa perms) s (no_error, s1)
    → Progress (n + 1) (pa + 4096) perms j s1 s'
    → (i : ℕ) → i < suc j
    → page_at s' (n + i) ≡ some (leaf (pa + i * 4096) perms)
Progress-mapped n pa perms j s s1 s' out first rest zero lt =
    let place : n + 0 ≡ n = omega arith in
    let frame : pa + 0 * 4096 ≡ pa = omega arith in
    rw (place, frame) (rest.others n out (inl (omega arith)) ∙ first.1)
Progress-mapped n pa perms j s s1 s' out first rest (suc i) lt =
    let place : (n + 1) + i ≡ n + suc i = omega arith in
    let frame : (pa + 4096) + i * 4096 ≡ pa + suc i * 4096 = omega arith in
    rw⁻¹ (place, frame) (rest.mapped i (omega (arith, lt)))

Progress-suc :
    {A : Type 0} (n pa : ℕ) (perms : Perms) (j : ℕ) (s s1 s' : Vmm A)
    → Ordinary n
    → PageMapped n (leaf pa perms) s (no_error, s1)
    → Progress (n + 1) (pa + 4096) perms j s1 s'
    → Progress n pa perms (suc j) s s'
Progress-suc n pa perms j s s1 s' out first rest = record {
  mapped = Progress-mapped n pa perms j s s1 s' out first rest;
  others = λ k o h.
      rest.others k o
        (elim h [ inl lt ↦ inl (omega (arith, lt)) | inr le ↦ inr (omega (arith, le)) ])
      ∙ first.0 k o (elim h [ inl lt ↦ omega (arith, lt) | inr le ↦ omega (arith, le) ]);
}

RangeMapped-suc :
    {A : Type 0} (n pa : ℕ) (perms : Perms) (count : ℕ) (s s1 : Vmm A) (r : Err × Vmm A)
    → Ordinary n
    → PageMapped n (leaf pa perms) s (no_error, s1)
    → RangeMapped (n + 1) (pa + 4096) perms count s1 r
    → RangeMapped n pa perms (suc count) s r
RangeMapped-suc n pa perms count s s1 (no_error, s') out first rest =
    Progress-suc n pa perms count s s1 s' out first rest
RangeMapped-suc n pa perms count s s1 (check_failed, s') out first rest = rest
RangeMapped-suc n pa perms count s s1 (out_of_memory, s') out first rest = (
  suc rest.0,
  (omega (arith, rest.1.0), Progress-suc n pa perms rest.0 s s1 s' out first rest.1.1),
)

-- What a range must keep to: no wrap, only ordinary pages, and frames
-- that the direct map holds if they are to be unmapped there.
pub record InRange (pa va count : ℕ) (perms : Perms) : Type 0 where
  pub va_end : va + count * 4096 < 2 ^ 64
  pub pa_end : pa + count * 4096 < 2 ^ 64
  pub pages : pml1 va + count < 2 ^ 36
  pub ordinary : (i : ℕ) → i < count → Ordinary (pml1 va + i)
  pub direct : perms.map_unmap_direct ≡ true → pa + count * 4096 ≤ direct_map_size

InRange-suc :
    (pa va count : ℕ) (perms : Perms)
    → InRange pa va (suc count) perms
    → (pml1 (va + 4096) ≡ pml1 va + 1) × InRange (pa + 4096) (va + 4096) count perms
InRange-suc pa va count perms h =
    let next : pml1 (va + 4096) ≡ pml1 va + 1 = omega (arith, h.pages) in
    (
      next,
      record {
        va_end = omega (arith, h.va_end);
        pa_end = omega (arith, h.pa_end);
        pages = omega (arith, h.pages, next);
        ordinary =
            λ i lt. subst Ordinary (omega (arith, next)) (h.ordinary (suc i) (omega (arith, lt)));
        direct = λ e. omega (arith, h.direct e);
      },
    )

map_pages-RangeMapped :
    {A : Type 0} (m : PageAllocator A) (count pa va : ℕ) (perms : Perms) (s : Vmm A)
    → Allocates m
    → InRange pa va count perms
    → Ends
        (RangeMapped (pml1 va) pa perms count s)
        (map_pages m count pa va (va + count * 4096) perms s)
unfolding map_pages
map_pages-RangeMapped m zero pa va perms s law h =
    let stop : ltb va (va + 0 * 4096) ≡ false = ground arith in
    rw stop (Progress-zero (pml1 va) pa perms s s (λ n o. refl))
map_pages-RangeMapped m (suc f) pa va perms s law h =
    let n = pml1 va in
    let here : pml1 va + 0 ≡ pml1 va = omega arith in
    let first_page : Ordinary (pml1 va) = subst Ordinary here (h.ordinary 0 (omega arith)) in
    let out : Ordinary n = first_page in
    let go : ltb va (va + suc f * 4096) ≡ true = ground arith in
    let pa' : (pa + 4096) % 2 ^ 64 ≡ pa + 4096 = omega (arith, h.pa_end) in
    let va' : (va + 4096) % 2 ^ 64 ≡ va + 4096 = omega (arith, h.va_end) in
    let end' : va + suc f * 4096 ≡ (va + 4096) + f * 4096 = omega arith in
    let below = InRange-suc pa va f perms h in
    rw (go, pa', va', end')
      (check-Ends (PageMapped n (leaf pa perms) s) (RangeMapped n pa perms (suc f) s)
        (map_page m pa va perms s)
        (map_pages m f (pa + 4096) (va + 4096) ((va + 4096) + f * 4096) perms)
        (map_page-PageMapped m pa va perms s law out (λ e. omega (arith, h.direct e)))
        (λ s1 first.
          Ends-weaken (RangeMapped (pml1 (va + 4096)) (pa + 4096) perms f s1)
            (RangeMapped n pa perms (suc f) s)
            (map_pages m f (pa + 4096) (va + 4096) ((va + 4096) + f * 4096) perms s1)
            (λ r rest.
              RangeMapped-suc n pa perms f s s1 r out first
                (subst (λ k. RangeMapped k (pa + 4096) perms f s1 r) below.0 rest))
            (map_pages-RangeMapped m f (pa + 4096) (va + 4096) perms s1 law below.1))
        (λ s1 kept. (0, (omega arith, Progress-zero n pa perms s s1 kept))) (λ s1 never. never))

pub do_map-RangeMapped :
    {A : Type 0} (m : PageAllocator A) (pa va count : ℕ) (perms : Perms) (s : Vmm A)
    → Allocates m
    → va % 4096 ≡ 0
    → pa % 4096 ≡ 0
    → InRange pa va count perms
    → Ends (RangeMapped (pml1 va) pa perms count s) (do_map m pa va count perms s)
unfolding do_map
do_map-RangeMapped m pa va count perms s law a b h =
    let end : (va + count * 4096) % 2 ^ 64 ≡ va + count * 4096 = omega (arith, h.va_end) in
    rw (a, b, end) (map_pages-RangeMapped m count pa va perms s law h)

-- An address that is not aligned is refused and changes nothing.
pub do_map-refused :
    {A : Type 0} (m : PageAllocator A) (pa va count : ℕ) (perms : Perms) (s : Vmm A)
    → (va % 4096 ≢ 0) ⊎ (pa % 4096 ≢ 0)
    → do_map m pa va count perms s ≡ done (check_failed, s)
unfolding do_map
do_map-refused m pa va count perms s h = ground (arith, h)
