-- ===== src/Waitable/Select/Taken.antt =====
-- kernel/thread/waitable.c: which waitables the loop of `waitable_select_lock` locks, index by index.
use pentagon.Prelude.{
  ℕ, zero, suc, ◌<◌, ◌≤◌, ◌≡◌, ◌⊎◌, inl, inr, refl, sym, ap, subst, ◌∙◌, arith, not, Option, none,
  some, List, [], ◌∷◌, ◌++◌, append-nil, ◌==◌, if◌then◌else◌, Bool-cases, NotIn, Distinct,
  Distinct-append, Apart-single,
}
use pentagon.Waitable.Select.{is_last}

-- The waitable at an index, and the one before it.
abbrev pub before : (ℕ → ℕ) → ℕ → Option ℕ
before w zero = none
before w (suc i) = some (w i)

-- What is locked at an index: nothing for the waitable that the index before has, too.
abbrev pub locked_at : (ℕ → ℕ) → ℕ → List ℕ
locked_at w i = if not (is_last (before w i) (w i)) then w i ∷ [] else []

unfoldable pub locks : (ℕ → ℕ) → ℕ → List ℕ
locks w zero = []
locks w (suc i) = locks w i ++ locked_at w i

-- The waitables are in the order of their addresses.
abbrev pub Ascending : (ℕ → ℕ) → ℕ → Type 0
Ascending w n = (i : ℕ) → suc i < n → w i ≤ w (suc i)

abbrev AllBelow : ℕ → List ℕ → Type 0
AllBelow b [] = Unit
AllBelow b (x ∷ xs) = (x < b) × AllBelow b xs

AllBelow-append : (b : ℕ) (xs ys : List ℕ) → AllBelow b xs → AllBelow b ys → AllBelow b (xs ++ ys)
AllBelow-append b [] ys h k = k
AllBelow-append b (x ∷ xs) ys h k = (h.0, AllBelow-append b xs ys h.1 k)

AllBelow-weaken : (b c : ℕ) (xs : List ℕ) → b ≤ c → AllBelow b xs → AllBelow c xs
AllBelow-weaken b c [] le h = tt
AllBelow-weaken b c (x ∷ xs) le h = (omega (arith, le, h.0), AllBelow-weaken b c xs le h.1)

AllBelow-NotIn : (b : ℕ) (xs : List ℕ) → AllBelow b xs → NotIn b xs
AllBelow-NotIn b [] h = tt
AllBelow-NotIn b (x ∷ xs) h = (omega (arith, h.0), AllBelow-NotIn b xs h.1)

locks-Distinct :
    (w : ℕ → ℕ) (n i : ℕ)
    → Ascending w n
    → i < n
    → AllBelow (suc (w i)) (locks w (suc i)) × Distinct (locks w (suc i))
unfolding locks
locks-Distinct w n zero up lt = ((omega arith, tt), (tt, tt))
locks-Distinct w n (suc k) up lt =
    let below = locks-Distinct w n k up (omega (arith, lt)) in
    let seen : List ℕ = locks w (suc k) in
    let x = w (suc k) in
    let le = up k lt in
    elim (Bool-cases (w k == w (suc k))) [
      | inl same ↦
          let none_new : locked_at w (suc k) ≡ [] = rw same refl in
          let all : seen ++ locked_at w (suc k) ≡ seen =
            ap (λ (l : List ℕ). seen ++ l) none_new ∙ append-nil seen in
          rw all (AllBelow-weaken (suc (w k)) (suc x) seen (omega (arith, le)) below.0, below.1)
      | inr new ↦
          let one_new : locked_at w (suc k) ≡ x ∷ [] = rw new refl in
          let more : w k < x = ground (arith, le, new) in
          let apart : NotIn x seen =
            AllBelow-NotIn x seen
              (AllBelow-weaken (suc (w k)) x seen (omega (arith, more)) below.0) in
          rw one_new (
            AllBelow-append (suc x) seen (x ∷ [])
                (AllBelow-weaken (suc (w k)) (suc x) seen (omega (arith, le)) below.0)
                (omega arith, tt),
            Distinct-append seen (x ∷ []) below.1 (tt, tt) (Apart-single seen x apart),
          )
    ]

pub all_locks-Distinct : (w : ℕ → ℕ) (n : ℕ) → Ascending w n → Distinct (locks w n)
unfolding locks
all_locks-Distinct w zero up = tt
all_locks-Distinct w (suc i) up = (locks-Distinct w (suc i) i up (omega arith)).1

-- The list has the number.
abbrev pub IsIn : ℕ → List ℕ → Type 0
IsIn x [] = ⊥
IsIn x (y ∷ ys) = (x ≡ y) ⊎ IsIn x ys

IsIn-left : (x : ℕ) (xs ys : List ℕ) → IsIn x xs → IsIn x (xs ++ ys)
IsIn-left x [] ys h = absurd h
IsIn-left x (y ∷ xs) ys (inl e) = inl e
IsIn-left x (y ∷ xs) ys (inr h) = inr (IsIn-left x xs ys h)

IsIn-right : (x : ℕ) (xs ys : List ℕ) → IsIn x ys → IsIn x (xs ++ ys)
IsIn-right x [] ys h = h
IsIn-right x (y ∷ xs) ys h = inr (IsIn-right x xs ys h)

IsIn-append : (x : ℕ) (xs ys : List ℕ) → IsIn x (xs ++ ys) → IsIn x xs ⊎ IsIn x ys
IsIn-append x [] ys h = inr h
IsIn-append x (y ∷ xs) ys (inl e) = inl (inl e)
IsIn-append x (y ∷ xs) ys (inr h) = elim (IsIn-append x xs ys h) [
  | inl l ↦ inl (inr l)
  | inr r ↦ inr r
]

last_locked : (w : ℕ → ℕ) (i : ℕ) → IsIn (w i) (locks w (suc i))
unfolding locks
last_locked w zero = inl refl
last_locked w (suc k) = elim (Bool-cases (w k == w (suc k))) [
  | inl same ↦
      let e : w k ≡ w (suc k) = ground (arith, same) in
      IsIn-left (w (suc k)) (locks w (suc k)) (locked_at w (suc k))
        (subst (λ x. IsIn x (locks w (suc k))) e (last_locked w k))
  | inr new ↦
      let one_new : locked_at w (suc k) ≡ w (suc k) ∷ [] = rw new refl in
      IsIn-right (w (suc k)) (locks w (suc k)) (locked_at w (suc k)) (rw one_new (inl refl))
]

-- The waitable of each index is locked, and only those.
pub each_locked : (w : ℕ → ℕ) (n i : ℕ) → i < n → IsIn (w i) (locks w n)
unfolding locks
each_locked w zero i lt = absurd (omega (arith, lt))
each_locked w (suc k) i lt = elim (Bool-cases (i == k)) [
  | inl same ↦
      let e : k ≡ i = ground (arith, same) in
      subst (λ j. IsIn (w j) (locks w (suc k))) e (last_locked w k)
  | inr other ↦
      IsIn-left (w i) (locks w k) (locked_at w k) (each_locked w k i (ground (arith, lt, other)))
]

locked_at-only : (w : ℕ → ℕ) (i x : ℕ) → IsIn x (locked_at w i) → w i ≡ x
locked_at-only w i x h = elim (Bool-cases (is_last (before w i) (w i))) [
  | inl same ↦
      let none_new : locked_at w i ≡ [] = rw same refl in
      absurd (subst (λ (l : List ℕ). IsIn x l) none_new h)
  | inr new ↦
      let one_new : locked_at w i ≡ w i ∷ [] = rw new refl in
      elim (subst (λ (l : List ℕ). IsIn x l) one_new h) [ inl e ↦ sym e | inr never ↦ absurd never ]
]

pub only_locked : (w : ℕ → ℕ) (n x : ℕ) → IsIn x (locks w n) → (i : ℕ) × ((i < n) × (w i ≡ x))
unfolding locks
only_locked w zero x h = absurd h
only_locked w (suc k) x h = elim (IsIn-append x (locks w k) (locked_at w k) h) [
  | inl early ↦ let (i, h) = only_locked w k x early in (i, (omega (arith, h.0), h.1))
  | inr late ↦ (k, (omega arith, locked_at-only w k x late))
]
