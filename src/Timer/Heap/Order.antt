-- ===== src/Timer/Heap/Order.antt =====
-- The heap order and its weakenings at one slot, and what the choice of a child gives.
use pentagon.Prelude.{
  ℕ, ◌+◌, ◌*◌, ◌≤◌, ◌<◌, ◌≡◌, ◌≢◌, ◌⊎◌, inl, inr, ap, arith, update, update-ne, weigh, weigh-update,
  weigh-agree,
}
use pentagon.Timer.Heap.{TimerRef, Slots, parent, earlier_of_pair, earliest_child, put_back}

module _ (w : TimerRef → ℕ) (n : ℕ) where
  -- No timer is due before its parent.
  abbrev pub IsHeap : Slots → Type 0
  IsHeap a = (k : ℕ) → 0 < k → k < n → w (a (parent k)) ≤ w (a k)

  -- The same but between `i` and its parent and children; there the parent is compared with the
  -- children.
  pub record IsHeapBut (a : Slots) (i : ℕ) : Type 0 where
    pub edge : (k : ℕ) → 0 < k → k < n → k ≢ i → parent k ≢ i → w (a (parent k)) ≤ w (a k)
    pub over : (k : ℕ) → 0 < k → k < n → parent k ≡ i → 0 < i → w (a (parent i)) ≤ w (a k)

  earlier_of_pair_lem :
      (a : Slots) (c : ℕ)
      → c < n
      → let d = earlier_of_pair w a n c in
        ((d ≡ c) ⊎ (d ≡ c + 1))
        × (d < n)
        × (w (a d) ≤ w (a c))
        × (c + 1 < n → w (a d) ≤ w (a (c + 1)))
  unfolding earlier_of_pair
  earlier_of_pair_lem a c lt = ground arith

  children :
      (i k : ℕ)
      → 0 < k
      → parent k ≡ i
      → (k ≡ i * 4 + 1) ⊎ ((k ≡ i * 4 + 1 + 1) ⊎ ((k ≡ i * 4 + 3) ⊎ (k ≡ i * 4 + 3 + 1)))
  children i k p e = ground arith

  earliest_child-le :
      (a : Slots) (i k : ℕ)
      → 0 < k
      → k < n
      → parent k ≡ i
      → w (a (earliest_child w a n i)) ≤ w (a k)
  unfolding earliest_child
  earliest_child-le a i k p lt e =
      let first = earlier_of_pair_lem a (i * 4 + 1) (omega arith) in
      let second = earlier_of_pair_lem a (i * 4 + 3) in
      elim (children i k p e) [
        | inl f ↦ ground (arith, second, ap (λ j. w (a j)) f)
        | inr (inl f) ↦ ground (arith, second, ap (λ j. w (a j)) f)
        | inr (inr (inl f)) ↦ ground (arith, second, ap (λ j. w (a j)) f)
        | inr (inr (inr f)) ↦ ground (arith, second, ap (λ j. w (a j)) f)
      ]

  -- The chosen child exists and is due no later than the others.
  pub earliest_child_lem :
      (a : Slots) (i : ℕ)
      → i * 4 + 1 < n
      → let c = earliest_child w a n i in
        (c < n)
        × (0 < c)
        × (parent c ≡ i)
        × ((k : ℕ) → 0 < k → k < n → parent k ≡ i → w (a c) ≤ w (a k))
  earliest_child_lem a i lt =
      let first = earlier_of_pair_lem a (i * 4 + 1) lt in
      let second = earlier_of_pair_lem a (i * 4 + 3) in
      (
        (unfold earliest_child in ground (arith, second)),
        (unfold earliest_child in ground (arith, second)),
        (unfold earliest_child in ground (arith, second)),
        earliest_child-le a i,
      )

pub put_back-update : (a : Slots) (i : ℕ) (t : TimerRef) (k : ℕ) → put_back a i t k ≡ update a i t k
put_back-update a i t k = grind arith

-- A move of slot `j` to slot `i`, after which the saved timer goes to `j`, loses no timer.
pub weigh-move :
    (v : TimerRef → ℕ) (n : ℕ) (a : Slots) (i j : ℕ) (t : TimerRef)
    → i < n
    → j < n
    → i ≢ j
    → weigh v n (update (update a i (a j)) j t) ≡ weigh v n (update a i t)
weigh-move v n a i j t li lj ne =
    let moved = update-ne a i j (a j) ne in
    omega (
      arith,
      weigh-update v n (update a i (a j)) j t lj,
      weigh-update v n a i (a j) li,
      weigh-update v n a i t li,
      ap v moved,
    )

pub weigh-put_back :
    (v : TimerRef → ℕ) (n : ℕ) (a : Slots) (i : ℕ) (t : TimerRef)
    → weigh v n (put_back a i t) ≡ weigh v n (update a i t)
weigh-put_back v n a i t =
    weigh-agree v n (put_back a i t) (update a i t) (λ k lt. put_back-update a i t k)

pub weigh-same :
    (v : TimerRef → ℕ) (n : ℕ) (a : Slots) (i : ℕ)
    → i < n
    → weigh v n (update a i (a i)) ≡ weigh v n a
weigh-same v n a i lt = omega (arith, weigh-update v n a i (a i) lt)
