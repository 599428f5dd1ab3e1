-- ===== src/Memory/Vmm/Map.antt =====
-- One round of the loop of `do_map`.
use pentagon.Prelude.{
  ◌+◌, ◌∙◌, ℕ, ◌<◌, ◌≡◌, ◌≢◌, refl, ap, arith, Bool, true, false, some, Outcome, done, panic, waits,
}
use pentagon.Memory.Vmm.{
  entry_at, PageEntry, Perms, Vmm, has_table, pml1, pml2, pml3, pml4, set_entry, Err, no_error,
  check_failed, out_of_memory, check, PageAllocator, unmap_direct_page, vmm_setup_level, leaf,
  unmap_if, map_page, invlpg, direct_map_size,
}
use pentagon.Memory.Vmm.Walk.{
  enter_leaf-page_at, enter_other-page_at, Ordinary, page_at, new4, new3, new2, pml4-pml1,
  pml3-pml1, pml2-pml1,
}
use pentagon.Memory.Vmm.Level.{
  Upper, Ends, Allocates, SameBut, SameBut-page_at, SetUp, vmm_setup_level-SetUp,
  unmap_direct_page-Ends, and_then-Ends,
}

pub check-Ends :
    {S : Type 0} (P Q : Err × S → Type 0) (o : Outcome (Err × S)) (f : S → Outcome (Err × S))
    → Ends P o
    → ((s : S) → P (no_error, s) → Ends Q (f s))
    → ((s : S) → P (out_of_memory, s) → Q (out_of_memory, s))
    → ((s : S) → P (check_failed, s) → Q (check_failed, s))
    → Ends Q (check o f)
check-Ends P Q (done (no_error, s)) f h k l m = k s h
check-Ends P Q (done (check_failed, s)) f h k l m = m s h
check-Ends P Q (done (out_of_memory, s)) f h k l m = l s h
check-Ends P Q panic f h k l m = absurd h
check-Ends P Q waits f h k l m = absurd h

pub Ends-weaken :
    {A : Type 0} (P Q : A → Type 0) (o : Outcome A) → ((a : A) → P a → Q a) → Ends P o → Ends Q o
Ends-weaken P Q (done a) k h = k a h
Ends-weaken P Q panic k h = absurd h
Ends-weaken P Q waits k h = absurd h

-- No ordinary page changed.
abbrev pub Kept : {A : Type 0} → Vmm A → Vmm A → Type 0
Kept s s' = (n : ℕ) → Ordinary n → page_at s' n ≡ page_at s n

-- Without an error the page is mapped; no other ordinary page changed.
abbrev pub PageMapped : {A : Type 0} → ℕ → PageEntry → Vmm A → Err × Vmm A → Type 0
PageMapped n e s (no_error, s') =
    ((k : ℕ) → Ordinary k → k ≢ n → page_at s' k ≡ page_at s k) × (page_at s' n ≡ some e)
PageMapped n e s (check_failed, s') = ⊥
PageMapped n e s (out_of_memory, s') = Kept s s'

unmap_if-SameBut :
    {A : Type 0} (b : Bool) (pa : ℕ) (s : Vmm A)
    → (b ≡ true → pa < direct_map_size)
    → Ends (λ (r : Err × Vmm A). (r.0 ≡ no_error) × SameBut s r.1) (unmap_if b pa s)
unmap_if-SameBut false pa s lt = (refl, λ k o. refl)
unmap_if-SameBut {A} true pa s lt =
    and_then-Ends (SameBut s) (λ (r : Err × Vmm A). (r.0 ≡ no_error) × SameBut s r.1)
      (unmap_direct_page pa s) (λ s'. done (no_error, s')) (unmap_direct_page-Ends s pa (lt refl))
      (λ s' h. (refl, h))

-- The tables above the page are there.
abbrev HasTables : {A : Type 0} → ℕ → Vmm A → Type 0
HasTables va s =
    ((entry_at 4 (pml4 va) s).present ≡ true)
    × ((entry_at 3 (pml3 va) s).present ≡ true)
    × ((entry_at 2 (pml2 va) s).present ≡ true)

HasTables-has_table :
    {A : Type 0} (va : ℕ) (s : Vmm A) → HasTables va s → has_table s (pml1 va) ≡ true
HasTables-has_table va s h =
    rw⁻¹ (pml4-pml1 va, pml3-pml1 va, pml2-pml1 va) (rw (h.0, h.1, h.2) refl)

leaf-PageMapped :
    {A : Type 0} (n : ℕ) (e : PageEntry) (s t : Vmm A) (r : Err × Vmm A)
    → ((k : ℕ) → Ordinary k → k ≢ n → page_at t k ≡ page_at s k)
    → page_at t n ≡ some e
    → Ordinary n
    → r.0 ≡ no_error
    → SameBut t r.1
    → PageMapped n e s r
leaf-PageMapped n e s t (no_error, s') others here out ok same = (
  λ k o ne. SameBut-page_at t s' k same o ∙ others k o ne,
  SameBut-page_at t s' n same out ∙ here,
)
leaf-PageMapped n e s t (check_failed, s') others here out ok same = cc
leaf-PageMapped n e s t (out_of_memory, s') others here out ok same = absurd cc

PageMapped-after :
    {A : Type 0} (n : ℕ) (e : PageEntry) (s t : Vmm A) (r : Err × Vmm A)
    → Kept s t
    → PageMapped n e t r
    → PageMapped n e s r
PageMapped-after n e s t (no_error, s') kept h = (λ k o ne. h.0 k o ne ∙ kept k o, h.1)
PageMapped-after n e s t (check_failed, s') kept h = h
PageMapped-after n e s t (out_of_memory, s') kept h = λ k o. h k o ∙ kept k o

-- The entry of the page is written, and then maybe its direct address unmapped.
enter_leaf-PageMapped :
    {A : Type 0} (va pa : ℕ) (perms : Perms) (s : Vmm A)
    → Ordinary (pml1 va)
    → (perms.map_unmap_direct ≡ true → pa < direct_map_size)
    → HasTables va s
    → Ends
        (PageMapped (pml1 va) (leaf pa perms) s)
        (unmap_if perms.map_unmap_direct pa (invlpg va (set_entry 1 (pml1 va) (leaf pa perms) s)))
enter_leaf-PageMapped va pa perms s out lt h =
    let n = pml1 va in
    let e = leaf pa perms in
    let t = invlpg va (set_entry 1 n e s) in
    Ends-weaken (λ r. (r.0 ≡ no_error) × SameBut t r.1) (PageMapped n e s)
      (unmap_if perms.map_unmap_direct pa t)
      (λ r k.
        leaf-PageMapped n e s t r (λ j o ne. enter_other-page_at n j e s out o ne)
          (enter_leaf-page_at n e s out refl (HasTables-has_table va s h)) out k.0 k.1)
      (unmap_if-SameBut perms.map_unmap_direct pa t lt)

pml4-Upper : (va : ℕ) → Upper 4 (pml4 va)
pml4-Upper va = (omega arith, λ k up. absurd up)

pml3-Upper : (va : ℕ) → Upper 3 (pml3 va)
pml3-Upper va = (omega arith, λ k up. omega (arith, up))

pml2-Upper : (va : ℕ) → Upper 2 (pml2 va)
pml2-Upper va = (omega arith, λ k up. omega (arith, up))

-- `map_page` of an ordinary page ends; without an error the page is mapped, and if there
-- is no frame for a table it answers so and changes no page. Other ordinary pages stay.
pub map_page-PageMapped :
    {A : Type 0} (m : PageAllocator A) (pa va : ℕ) (perms : Perms) (s : Vmm A)
    → Allocates m
    → Ordinary (pml1 va)
    → (perms.map_unmap_direct ≡ true → pa < direct_map_size)
    → Ends (PageMapped (pml1 va) (leaf pa perms) s) (map_page m pa va perms s)
unfolding map_page
map_page-PageMapped m pa va perms s law out lt =
    let Q = PageMapped (pml1 va) (leaf pa perms) s in
    check-Ends (SetUp 4 (pml4 va) s) Q (vmm_setup_level m 4 3 (pml4 va) s) _
      (vmm_setup_level-SetUp m 4 3 (pml4 va) s law (λ e t h. new4 va e t out h) (pml4-Upper va))
      (λ s1 h1.
        check-Ends (SetUp 3 (pml3 va) s1) Q (vmm_setup_level m 3 2 (pml3 va) s1) _
          (vmm_setup_level-SetUp m 3 2 (pml3 va) s1 law (λ e t h. new3 va e t out h)
            (pml3-Upper va))
          (λ s2 h2.
            check-Ends (SetUp 2 (pml2 va) s2) Q (vmm_setup_level m 2 1 (pml2 va) s2) _
              (vmm_setup_level-SetUp m 2 1 (pml2 va) s2 law (λ e t h. new2 va e t out h)
                (pml2-Upper va))
              (λ s3 h3.
                Ends-weaken (PageMapped (pml1 va) (leaf pa perms) s3) Q
                  (unmap_if perms.map_unmap_direct pa
                    (invlpg va (set_entry 1 (pml1 va) (leaf pa perms) s3)))
                  (λ r.
                    PageMapped-after (pml1 va) (leaf pa perms) s s3 r
                      (λ n o. h3.0 n o ∙ h2.0 n o ∙ h1.0 n o))
                  (enter_leaf-PageMapped va pa perms s3 out lt (
                    ap (λ (e : PageEntry). e.present)
                          (h3.2 (68584995840 + pml4 va) (omega arith, omega arith)
                            ∙ h2.2 (68584995840 + pml4 va) (omega arith, omega arith))
                        ∙ h1.1,
                    ap (λ (e : PageEntry). e.present)
                          (h3.2 (68584734720 + pml3 va) (omega arith, omega arith))
                        ∙ h2.1,
                    h3.1,
                  )))
              (λ s3 h3 n o. h3 n o ∙ h2.0 n o ∙ h1.0 n o) (λ s3 h3. absurd h3))
          (λ s2 h2 n o. h2 n o ∙ h1.0 n o) (λ s2 h2. absurd h2))
      (λ s1 h1. h1) (λ s1 h1. absurd h1)
