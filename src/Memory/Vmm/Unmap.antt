-- ===== src/Memory/Vmm/Unmap.antt =====
-- `vmm_unmap` against the pages of its range.
use pentagon.Prelude.{
  ◌∙◌, ℕ, zero, suc, ◌+◌, ◌*◌, ◌<◌, ◌≤◌, ◌≡◌, ◌≢◌, ◌⊎◌, refl, sym, ap, ap₂, subst, arith, true,
  Option, none, some, List, [], ◌∷◌, ◌++◌, append_assoc, append-nil, Bool-cases, inl, inr,
}
use pentagon.Memory.Vmm.{
  entry_at, no_entry, set_entry, has_table, PageEntry, Vmm, unmap_entries, invalid_phys_addr,
}
use pentagon.Memory.Vmm.Walk.{page_at, Ordinary, enter_other-page_at, enter-has_table}
use pentagon.Memory.Vmm.Level.{Ends}
use pentagon.Memory.Vmm.Map.{Ends-weaken}

abbrev pub phys_of : Option PageEntry → ℕ
phys_of none = invalid_phys_addr
phys_of (some e) = e.frame * 4096

-- The frames of the pages from `n` on.
unfoldable pub phys_list : {A : Type 0} → Vmm A → ℕ → ℕ → List ℕ
phys_list s n zero = []
phys_list s n (suc c) = phys_of (page_at s n) ∷ phys_list s (n + 1) c

-- What unmapping leaves: the pages of the range are gone, the other ordinary ones stay, and `phys` has the old
-- frames appended.
pub record Unmapped {A : Type 0} (n count : ℕ) (s : Vmm A) (phys : List ℕ) (r : List ℕ × Vmm A)
    : Type 0 where
  pub frames : r.0 ≡ phys ++ phys_list s n count
  pub gone : (i : ℕ) → i < count → page_at r.1 (n + i) ≡ none
  pub others : (k : ℕ) → Ordinary k → (k < n) ⊎ (n + count ≤ k) → page_at r.1 k ≡ page_at s k

-- Ordinary pages from `n` on, `c` of them.
abbrev pub AllOrdinary : ℕ → ℕ → Type 0
AllOrdinary n c = (i : ℕ) → i < c → Ordinary (n + i)

AllOrdinary-suc : (n c : ℕ) → AllOrdinary n (suc c) → Ordinary n × AllOrdinary (n + 1) c
AllOrdinary-suc n c o =
    let place : n + 0 ≡ n = omega arith in
    (
      subst Ordinary place (o 0 (omega arith)),
      λ i lt.
          let next : n + suc i ≡ (n + 1) + i = omega arith in
          subst Ordinary next (o (suc i) (omega (arith, lt))),
    )

phys_list-agree :
    {A : Type 0} (s s1 : Vmm A) (n c : ℕ)
    → AllOrdinary n c
    → ((k : ℕ) → Ordinary k → n ≤ k → page_at s1 k ≡ page_at s k)
    → phys_list s1 n c ≡ phys_list s n c
unfolding phys_list
phys_list-agree s s1 n zero o same = refl
phys_list-agree s s1 n (suc c) o same =
    let below = AllOrdinary-suc n c o in
    ap₂ (λ (x : ℕ) (xs : List ℕ). x ∷ xs) (ap phys_of (same n below.0 (omega arith)))
      (phys_list-agree s s1 (n + 1) c below.1 (λ k p le. same k p (omega (arith, le))))

Unmapped-gone :
    {A : Type 0} (n count : ℕ) (s1 : Vmm A) (phys : List ℕ) (r : List ℕ × Vmm A)
    → Ordinary n
    → page_at s1 n ≡ none
    → Unmapped (n + 1) count s1 phys r
    → (i : ℕ) → i < suc count
    → page_at r.1 (n + i) ≡ none
Unmapped-gone n count s1 phys r o here rest zero lt =
    let place : n + 0 ≡ n = omega arith in rw place (rest.others n o (inl (omega arith)) ∙ here)
Unmapped-gone n count s1 phys r o here rest (suc i) lt =
    let place : (n + 1) + i ≡ n + suc i = omega arith in
    rw⁻¹ place (rest.gone i (omega (arith, lt)))

Unmapped-suc :
    {A : Type 0} (n count : ℕ) (s s1 : Vmm A) (phys : List ℕ) (r : List ℕ × Vmm A)
    → AllOrdinary n (suc count)
    → ((k : ℕ) → Ordinary k → k ≢ n → page_at s1 k ≡ page_at s k)
    → page_at s1 n ≡ none
    → Unmapped (n + 1) count s1 (phys ++ (phys_of (page_at s n) ∷ [])) r
    → Unmapped n (suc count) s phys r
unfolding phys_list
Unmapped-suc n count s s1 phys r ordinary same here rest =
    let below = AllOrdinary-suc n count ordinary in
    record {
      frames =
          rest.frames
          ∙ append_assoc phys (phys_of (page_at s n) ∷ []) (phys_list s1 (n + 1) count)
          ∙ ap (λ (l : List ℕ). phys ++ (phys_of (page_at s n) ∷ l))
              (phys_list-agree s s1 (n + 1) count below.1 (λ k o le. same k o (omega (arith, le))));
      gone = Unmapped-gone n count s1 (phys ++ (phys_of (page_at s n) ∷ [])) r below.0 here rest;
      others = λ k o h. elim h [
        | inl lt ↦ rest.others k o (inl (omega (arith, lt))) ∙ same k o (omega (arith, lt))
        | inr le ↦ rest.others k o (inr (omega (arith, le))) ∙ same k o (omega (arith, le))
      ];
    }

leave-page_at : {A : Type 0} (n : ℕ) (s : Vmm A) → page_at (set_entry 1 n no_entry s) n ≡ none
leave-page_at n s = ground arith

pub unmap_entries-Unmapped :
    {A : Type 0} (count n : ℕ) (s : Vmm A) (phys : List ℕ)
    → AllOrdinary n count
    → ((i : ℕ) → i < count → has_table s (n + i) ≡ true)
    → Ends (Unmapped n count s phys) (unmap_entries count n s phys)
unfolding unmap_entries phys_list
unmap_entries-Unmapped zero n s phys ordinary tables = record {
  frames = sym (append-nil phys);
  gone = λ i lt. absurd (omega (arith, lt));
  others = λ k o h. refl;
}
unmap_entries-Unmapped (suc c) n s phys ordinary tables =
    let place : n + 0 ≡ n = omega arith in
    let table : has_table s n ≡ true =
      subst (λ k. has_table s k ≡ true) place (tables 0 (omega arith)) in
    let s1 = set_entry 1 n no_entry s in
    let rest = AllOrdinary-suc n c ordinary in
    let below = λ (i : ℕ) (lt : i < c).
      subst (λ k. has_table s k ≡ true) (omega arith) (tables (suc i) (omega (arith, lt))) in
    elim (Bool-cases (entry_at 1 n s).present) [
      | inl here ↦
          let e : page_at s n ≡ some (entry_at 1 n s) = rw (table, here) refl in
          let phys' = phys ++ ((entry_at 1 n s).frame * 4096 ∷ []) in
          rw (table, here)
            (Ends-weaken (Unmapped (n + 1) c s1 phys') (Unmapped n (suc c) s phys)
              (unmap_entries c (n + 1) s1 phys')
              (λ r tail.
                Unmapped-suc n c s s1 phys r ordinary
                  (λ k o ne. enter_other-page_at n k no_entry s rest.0 o ne) (leave-page_at n s)
                  (rw e tail))
              (unmap_entries-Unmapped c (n + 1) s1 phys' rest.1 (λ i lt.
                enter-has_table n ((n + 1) + i) no_entry s rest.0 (rest.1 i lt) ∙ below i lt)))
      | inr absent ↦
          let e : page_at s n ≡ none = rw (table, absent) refl in
          let phys' = phys ++ (invalid_phys_addr ∷ []) in
          rw (table, absent)
            (Ends-weaken (Unmapped (n + 1) c s phys') (Unmapped n (suc c) s phys)
              (unmap_entries c (n + 1) s phys')
              (λ r tail. Unmapped-suc n c s s phys r ordinary (λ k o ne. refl) e (rw e tail))
              (unmap_entries-Unmapped c (n + 1) s phys' rest.1 below))
    ]
