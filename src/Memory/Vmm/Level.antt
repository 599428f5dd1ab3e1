-- ===== src/Memory/Vmm/Level.antt =====
-- Frames for the tables, and `vmm_setup_level`.
use pentagon.Prelude.{
  ◌≤◌, ◌%◌, ◌∙◌, ℕ, ◌+◌, ◌/◌, ◌%◌, ◌^◌, ◌<◌, ◌≡◌, ◌≢◌, refl, ap, arith, true, false, Option, none,
  some, leb, Outcome, done, panic, waits, and_then, Bool-cases, inl, inr,
}
use pentagon.Memory.Vmm.{
  entry_at, table_start, frame_of, PageEntry, Vmm, Err, no_error, check_failed, out_of_memory,
  PageAllocator, unmap_direct_page, unmap_at, found_page, vmm_alloc_page, enter_page,
  vmm_setup_level, direct_map_start, direct_map_size,
}
use pentagon.Memory.Vmm.Walk.{page_at, Ordinary, Above, NewPage}

-- What holds of every end; the call neither stops the kernel nor waits.
abbrev pub Ends {ℓ} : {A : Type ℓ} → (A → Type 0) → Outcome A → Type 0
Ends P (done a) = P a
Ends P panic = ⊥
Ends P waits = ⊥

pub and_then-Ends :
    {A B : Type 0} (P : A → Type 0) (Q : B → Type 0) (o : Outcome A) (f : A → Outcome B)
    → Ends P o
    → ((a : A) → P a → Ends Q (f a))
    → Ends Q (and_then o f)
and_then-Ends P Q (done a) f h k = k a h
and_then-Ends P Q panic f h k = absurd h
and_then-Ends P Q waits f h k = absurd h

-- The allocator answers with no frame or with a page of physical memory, which the direct map holds.
abbrev pub InMemory : {A : Type 0} → Option ℕ × A → Type 0
InMemory (none, a) = Unit
InMemory (some pa, a) = (pa % 4096 ≡ 0) × (pa + 4096 ≤ direct_map_size)

abbrev pub Allocates : {A : Type 0} → PageAllocator A → Type 0
Allocates {A} m = (a : A) → Ends InMemory (m.alloc_page a)

-- Only entries of pages of the direct map changed.
abbrev pub SameBut : {A : Type 0} → Vmm A → Vmm A → Type 0
SameBut s s' = (k : ℕ) → k / 2 ^ 27 ≢ 256 → s'.entries k ≡ s.entries k

pub SameBut-page_at :
    {A : Type 0} (s s' : Vmm A) (n : ℕ) → SameBut s s' → Ordinary n → page_at s' n ≡ page_at s n
SameBut-page_at s s' n h o =
    rw
      (
        h (68584995840 + n / 2 ^ 27) (omega (arith, o.2)),
        h (68584734720 + n / 2 ^ 18) (omega (arith, o.2)),
        h (68451041280 + n / 2 ^ 9) (omega (arith, o.2)),
        h (0 + n) (let low : (0 + n) / 2 ^ 27 ≢ 256 = omega (arith, o.0) in low),
      )
      refl

unmap_at-SameBut :
    {A : Type 0} (s : Vmm A) (pa : ℕ)
    → pa < direct_map_size
    → SameBut s (unmap_at (pa + direct_map_start) s)
unmap_at-SameBut s pa lt k h = ground (arith, h, lt)

pub unmap_direct_page-Ends :
    {A : Type 0} (s : Vmm A) (pa : ℕ)
    → pa < direct_map_size
    → Ends (SameBut s) (unmap_direct_page pa s)
unfolding unmap_direct_page
unmap_direct_page-Ends s pa lt =
    let e : leb pa direct_map_size ≡ true = ground (arith, lt) in rw e (unmap_at-SameBut s pa lt)

SameBut-allocator :
    {A : Type 0} (s : Vmm A) (a : A) (s' : Vmm A)
    → SameBut (record s { allocator = a }) s'
    → SameBut s s'
SameBut-allocator s a s' h = h

found_page-Ends :
    {A : Type 0} (s : Vmm A) (o : Option ℕ) (a : A)
    → InMemory (o, a)
    → Ends
        (λ (r : Option ℕ × Vmm A). SameBut s r.1 × InMemory r)
        (found_page o (record s { allocator = a }))
found_page-Ends s none a h = (λ k o. refl, tt)
found_page-Ends {A} s (some pa) a h =
    let t = record s { allocator = a } in
    and_then-Ends (SameBut t) (λ (r : Option ℕ × Vmm A). SameBut s r.1 × InMemory r)
      (unmap_direct_page pa t) (λ s'. done (some pa, s'))
      (unmap_direct_page-Ends t pa (omega (arith, h.1))) (λ s' k. (SameBut-allocator s a s' k, h))

pub vmm_alloc_page-Ends :
    {A : Type 0} (m : PageAllocator A) (s : Vmm A)
    → Allocates m
    → Ends (λ r. SameBut s r.1 × InMemory r) (vmm_alloc_page m s)
unfolding vmm_alloc_page
vmm_alloc_page-Ends {A} m s law =
    and_then-Ends InMemory (λ (r : Option ℕ × Vmm A). SameBut s r.1 × InMemory r)
      (m.alloc_page s.allocator) (λ r. found_page r.0 (record s { allocator = r.1 }))
      (law s.allocator) (λ r h. found_page-Ends s r.0 r.1 h)

-- What setting up one level leaves: ordinary pages and the higher tables stay; without an error the
-- entry is present.
abbrev pub SetUp : {A : Type 0} → ℕ → ℕ → Vmm A → Err × Vmm A → Type 0
SetUp level i s (no_error, s') =
    ((n : ℕ) → Ordinary n → page_at s' n ≡ page_at s n)
    × ((entry_at level i s').present ≡ true)
    × ((k : ℕ) → Above level k → s'.entries k ≡ s.entries k)
SetUp level i s (check_failed, s') = ⊥
SetUp level i s (out_of_memory, s') = (n : ℕ) → Ordinary n → page_at s' n ≡ page_at s n

-- An entry of a table above the last, and the tables above it, are not in the direct map.
abbrev pub Upper : ℕ → ℕ → Type 0
Upper level i =
    ((table_start level + i) / 2 ^ 27 ≢ 256) × ((k : ℕ) → Above level k → k / 2 ^ 27 ≢ 256)

enter_page-SetUp :
    {A : Type 0} (level next i : ℕ) (s : Vmm A) (r : Option ℕ × Vmm A)
    → ((e : PageEntry) (t : Vmm A)
        → (entry_at level i t).present ≡ false
        → NewPage level next i e t)
    → Upper level i
    → (entry_at level i s).present ≡ false
    → SameBut s r.1
    → Ends (SetUp level i s) (enter_page level next i r)
enter_page-SetUp level next i s (none, s1) new up absent h = λ n o. SameBut-page_at s s1 n h o
enter_page-SetUp level next i s (some pa, s1) new up absent h =
    let e : PageEntry = record {
      present = true;
      writeable = true;
      no_execute = false;
      frame = frame_of pa;
    } in
    let fresh =
      new e s1 (ap (λ (x : PageEntry). x.present) (h (table_start level + i) up.0) ∙ absent) in
    (
      λ n o. fresh.0 n o ∙ SameBut-page_at s s1 n h o,
      ap (λ (x : PageEntry). x.present) fresh.1,
      λ k above. fresh.2 k above ∙ h k (up.1 k above),
    )

pub vmm_setup_level-SetUp :
    {A : Type 0} (m : PageAllocator A) (level next i : ℕ) (s : Vmm A)
    → Allocates m
    → ((e : PageEntry) (t : Vmm A)
        → (entry_at level i t).present ≡ false
        → NewPage level next i e t)
    → Upper level i
    → Ends (SetUp level i s) (vmm_setup_level m level next i s)
unfolding vmm_setup_level
vmm_setup_level-SetUp {A} m level next i s law new up =
    elim (Bool-cases (entry_at level i s).present) [
      | inl here ↦ rw here (λ n o. refl, here, λ k above. refl)
      | inr absent ↦ rw absent (
          and_then-Ends (λ (r : Option ℕ × Vmm A). SameBut s r.1 × InMemory r) (SetUp level i s)
            (vmm_alloc_page m s) (enter_page level next i) (vmm_alloc_page-Ends m s law)
            (λ r h. enter_page-SetUp level next i s r new up absent h.0))
    ]
