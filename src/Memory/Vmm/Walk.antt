-- ===== src/Memory/Vmm/Walk.antt =====
-- What the page tables say of each page: the walk of the processor, by page numbers.
use pentagon.Prelude.{
  ◌<◌, ◌≢◌, ℕ, ◌/◌, ◌^◌, ◌≡◌, arith, false, ◌&&◌, Option, none, some, is_some, if◌then◌else◌, ◌==◌,
  ◌≤◌, ◌<◌, ◌≢◌, ◌+◌,
}
use pentagon.Memory.Vmm.{
  true, entry_at, PageEntry, Vmm, has_table, pml1, pml2, pml3, pml4, vmm_is_mapped, set_entry,
  clear_page,
}

-- The entry that maps page `n`, if there is one.
abbrev pub page_at : {A : Type 0} → Vmm A → ℕ → Option PageEntry
page_at s n = let e = entry_at 1 n s in if has_table s n && e.present then some e else none

-- The indices of the four tables stem from the page number.
pub pml2-pml1 : (va : ℕ) → pml2 va ≡ pml1 va / 2 ^ 9
pml2-pml1 va = omega arith

pub pml3-pml1 : (va : ℕ) → pml3 va ≡ pml1 va / 2 ^ 18
pml3-pml1 va = omega arith

pub pml4-pml1 : (va : ℕ) → pml4 va ≡ pml1 va / 2 ^ 27
pml4-pml1 va = omega arith

pub vmm_is_mapped-page_at :
    {A : Type 0} (s : Vmm A) (va : ℕ) → vmm_is_mapped s va ≡ is_some (page_at s (pml1 va))
unfolding vmm_is_mapped
vmm_is_mapped-page_at s va = rw (pml2-pml1 va, pml3-pml1 va, pml4-pml1 va) (ground arith)

-- A page whose number has 36 bits, neither in the direct map nor in the recursive slot.
abbrev pub Ordinary : ℕ → Type 0
Ordinary n = (n / 2 ^ 27 ≢ 256) × (n / 2 ^ 27 ≢ 510) × (n < 2 ^ 36)

-- The part of the array that shows the tables above level 3 or 2.
abbrev pub Above : ℕ → ℕ → Type 0
Above level k =
    if level == 4
    then ⊥
    else (if level == 3
        then ((68584995840 ≤ k) × (k < 68584995840 + 2 ^ 9))
        else ((68584734720 ≤ k) × (k < 68584734720 + 2 ^ 18)))

-- What a new, empty page below an absent entry does: it maps no ordinary page, and none was mapped
-- below it; the entry is written, and those of the tables above stay.
abbrev pub NewPage : {A : Type 0} → ℕ → ℕ → ℕ → PageEntry → Vmm A → Type 0
NewPage level next i e s =
    let t = clear_page next i (set_entry level i e s) in
    ((n : ℕ) → Ordinary n → page_at t n ≡ page_at s n)
    × (entry_at level i t ≡ e)
    × ((k : ℕ) → Above level k → t.entries k ≡ s.entries k)

pub new4 :
    {A : Type 0} (va : ℕ) (e : PageEntry) (s : Vmm A)
    → Ordinary (pml1 va)
    → (entry_at 4 (pml4 va) s).present ≡ false
    → NewPage 4 3 (pml4 va) e s
new4 va e s o h = (λ n p. ground (arith, o, p, h), ground (arith, o), λ k up. absurd up)

pub new3 :
    {A : Type 0} (va : ℕ) (e : PageEntry) (s : Vmm A)
    → Ordinary (pml1 va)
    → (entry_at 3 (pml3 va) s).present ≡ false
    → NewPage 3 2 (pml3 va) e s
new3 va e s o h = (λ n p. ground (arith, o, p, h), ground (arith, o), λ k up. ground (arith, o, up))

pub new2 :
    {A : Type 0} (va : ℕ) (e : PageEntry) (s : Vmm A)
    → Ordinary (pml1 va)
    → (entry_at 2 (pml2 va) s).present ≡ false
    → NewPage 2 1 (pml2 va) e s
new2 va e s o h = (λ n p. ground (arith, o, p, h), ground (arith, o), λ k up. ground (arith, o, up))

-- The entry of an ordinary page maps it, and no other ordinary page.
pub enter_leaf-page_at :
    {A : Type 0} (n : ℕ) (e : PageEntry) (s : Vmm A)
    → Ordinary n
    → e.present ≡ true
    → has_table s n ≡ true
    → page_at (set_entry 1 n e s) n ≡ some e
enter_leaf-page_at n e s o p h = ground (arith, o, p, h)

pub enter_other-page_at :
    {A : Type 0} (n k : ℕ) (e : PageEntry) (s : Vmm A)
    → Ordinary n
    → Ordinary k
    → k ≢ n
    → page_at (set_entry 1 n e s) k ≡ page_at s k
enter_other-page_at n k e s o p h = ground (arith, o, p, h)

pub enter-has_table :
    {A : Type 0} (n k : ℕ) (e : PageEntry) (s : Vmm A)
    → Ordinary n
    → Ordinary k
    → has_table (set_entry 1 n e s) k ≡ has_table s k
enter-has_table n k e s o p = ground (arith, o, p)
