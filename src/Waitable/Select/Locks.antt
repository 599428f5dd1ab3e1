-- ===== src/Waitable/Select/Locks.antt =====
-- Locking, unlocking and parking treat every waitable once.
use pentagon.Prelude.{
  ℕ, zero, suc, ◌+◌, ◌-◌, ◌<◌, ◌≡◌, inl, inr, refl, sym, ap, subst, ◌∙◌, arith, true, false, Option,
  none, some, List, [], ◌∷◌, ◌++◌, append_assoc, append-nil, ltb, ◌==◌, Bool-cases, Distinct,
}
use pentagon.Waitable.Select.Taken.{
  Ascending, IsIn, before, locked_at, locks, each_locked, only_locked, all_locks-Distinct,
}
use pentagon.Waitable.Select.{
  is_last, select_lock, waitable_select_lock, waitable_select_unlock, select_park,
}

abbrev pub reverse : List ℕ → List ℕ
reverse [] = []
reverse (x ∷ xs) = reverse xs ++ (x ∷ [])

reverse-snoc : (xs : List ℕ) (x : ℕ) → reverse (xs ++ (x ∷ [])) ≡ x ∷ reverse xs
reverse-snoc [] x = refl
reverse-snoc (y ∷ ys) x = ap (λ (l : List ℕ). l ++ (y ∷ [])) (reverse-snoc ys x)

is_last-some : (o : Option ℕ) (x : ℕ) → is_last o x ≡ true → o ≡ some x
is_last-some none x e = cc
is_last-some (some y) x e = let same : y ≡ x = ground (arith, e) in ap (λ z. some z) same

select_lock-locks :
    (waitables lockorder : ℕ → ℕ) (n i : ℕ)
    → let w = λ (k : ℕ). waitables (lockorder k) in
      locks w i ++ select_lock waitables lockorder n i (before w i) ≡ locks w (i + n)
unfolding select_lock locks
select_lock-locks waitables lockorder zero i =
    let w = λ (k : ℕ). waitables (lockorder k) in
    let place : i ≡ i + 0 = omega arith in append-nil (locks w i) ∙ ap (locks w) place
select_lock-locks waitables lockorder (suc n) i =
    let w = λ (k : ℕ). waitables (lockorder k) in
    let next : i + 1 ≡ suc i = omega arith in
    let place : suc i + n ≡ i + suc n = omega arith in
    let ih : (locks w i ++ locked_at w i) ++ select_lock waitables lockorder n (suc i) (some (w i))
        ≡ locks w (suc i + n) =
      select_lock-locks waitables lockorder n (suc i) in
    elim (Bool-cases (is_last (before w i) (w i))) [
      | inl same ↦
          let here : locked_at w i ≡ [] = rw same refl in
          let last : before w i ≡ some (w i) = is_last-some (before w i) (w i) same in
          rw (same, next)
            (ap (λ (o : Option ℕ). locks w i ++ select_lock waitables lockorder n (suc i) o) last
              ∙ ap (λ (l : List ℕ). l ++ select_lock waitables lockorder n (suc i) (some (w i)))
                  (sym (append-nil (locks w i)) ∙ ap (λ (l : List ℕ). locks w i ++ l) (sym here))
              ∙ ih
              ∙ ap (locks w) place)
      | inr new ↦
          let here : locked_at w i ≡ w i ∷ [] = rw new refl in
          rw (new, next)
            (sym (
                append_assoc (locks w i) (w i ∷ [])
                  (select_lock waitables lockorder n (suc i) (some (w i))))
              ∙ ap
                  (λ (l : List ℕ).
                    (locks w i ++ l) ++ select_lock waitables lockorder n (suc i) (some (w i)))
                  (sym here)
              ∙ ih
              ∙ ap (locks w) place)
    ]

==-swap : (a b : ℕ) → (a == b) ≡ (b == a)
==-swap a b = ground arith

unlock-locks :
    (waitables lockorder : ℕ → ℕ) (n : ℕ)
    → let w = λ (k : ℕ). waitables (lockorder k) in
      waitable_select_unlock waitables lockorder n ≡ reverse (locks w n)
unfolding waitable_select_unlock locks
unlock-locks waitables lockorder zero = refl
unlock-locks waitables lockorder (suc zero) = refl
unlock-locks waitables lockorder (suc (suc k)) =
    let w = λ (k : ℕ). waitables (lockorder k) in
    let prev : suc k - 1 ≡ k = omega arith in
    let positive : ltb 0 (suc k) ≡ true = ground arith in
    let ih = unlock-locks waitables lockorder (suc k) in
    elim (Bool-cases (w k == w (suc k))) [
      | inl same ↦
          let other : (w (suc k) == w k) ≡ true = ==-swap (w (suc k)) (w k) ∙ same in
          rw (prev, positive, other, same) (ih ∙ ap reverse (sym (append-nil (locks w (suc k)))))
      | inr new ↦
          let other : (w (suc k) == w k) ≡ false = ==-swap (w (suc k)) (w k) ∙ new in
          rw (prev, positive, other, new)
            (ap (λ (l : List ℕ). w (suc k) ∷ l) ih
              ∙ sym (reverse-snoc (locks w (suc k)) (w (suc k))))
    ]

-- The waitables of the indices from `i` on.
abbrev pub listed : (ℕ → ℕ) → ℕ → ℕ → List ℕ
listed w i zero = []
listed w i (suc n) = w i ∷ listed w (i + 1) n

select_park-some :
    (waitables lockorder : ℕ → ℕ) (n i l : ℕ)
    → select_park (listed (λ k. waitables (lockorder k)) i n) (some l)
      ≡ l ∷ select_lock waitables lockorder n i (some l)
unfolding select_park select_lock
select_park-some waitables lockorder zero i l = refl
select_park-some waitables lockorder (suc n) i l =
    let w = λ (k : ℕ). waitables (lockorder k) in
    let rest = select_park-some waitables lockorder n (i + 1) (w i) in
    elim (Bool-cases (l == w i)) [
      | inl same ↦
          let other : (w i == l) ≡ true = ==-swap (w i) l ∙ same in
          let here : w i ≡ l = ground (arith, same) in
          rw (other, same)
            (rest ∙ ap (λ (x : ℕ). x ∷ select_lock waitables lockorder n (i + 1) (some x)) here)
      | inr new ↦
          let other : (w i == l) ≡ false = ==-swap (w i) l ∙ new in
          rw (other, new) (ap (λ (ys : List ℕ). l ∷ ys) rest)
    ]

select_park-lock :
    (waitables lockorder : ℕ → ℕ) (n : ℕ)
    → select_park (listed (λ k. waitables (lockorder k)) 0 n) none
      ≡ waitable_select_lock waitables lockorder n
unfolding select_park select_lock
select_park-lock waitables lockorder zero = refl
select_park-lock waitables lockorder (suc n) =
    select_park-some waitables lockorder n (0 + 1) (waitables (lockorder 0))

-- Over a lock order by addresses, `waitable_select_lock` locks the waitable of each index and no
-- others, each once, and `waitable_select_unlock` unlocks the same ones in the opposite order;
-- `waitable_select_park`, over the entries in lock order, unlocks them in that order.
pub select_unlock-reverse :
    (waitables lockorder : ℕ → ℕ) (count : ℕ)
    → Ascending (λ k. waitables (lockorder k)) count
    → let locked = waitable_select_lock waitables lockorder count in
      ((i : ℕ) → i < count → IsIn (waitables (lockorder i)) locked)
      × ((x : ℕ) → IsIn x locked → (i : ℕ) × ((i < count) × (waitables (lockorder i) ≡ x)))
      × Distinct locked
      × (waitable_select_unlock waitables lockorder count ≡ reverse locked)
      × (select_park (listed (λ k. waitables (lockorder k)) 0 count) none ≡ locked)
unfolding select_lock locks
select_unlock-reverse waitables lockorder count up =
    let w = λ (k : ℕ). waitables (lockorder k) in
    let start : 0 + count ≡ count = omega arith in
    let all : waitable_select_lock waitables lockorder count ≡ locks w count =
      select_lock-locks waitables lockorder count 0 ∙ ap (locks w) start in
    (
      λ i lt. subst (λ (l : List ℕ). IsIn (w i) l) (sym all) (each_locked w count i lt),
      λ x h. only_locked w count x (subst (λ (l : List ℕ). IsIn x l) all h),
      subst Distinct (sym all) (all_locks-Distinct w count up),
      unlock-locks waitables lockorder count ∙ ap reverse (sym all),
      select_park-lock waitables lockorder count,
    )
