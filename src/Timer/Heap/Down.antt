-- ===== src/Timer/Heap/Down.antt =====
-- `siftdown_timer` restores the heap order below a slot.
use pentagon.Prelude.{
  ℕ, zero, suc, ◌+◌, ◌*◌, ◌≤◌, ◌<◌, ◌≡◌, inl, inr, refl, fun_ext, ◌∙◌, arith, leb, Bool-cases,
  update, weigh, SameElements,
}
use pentagon.Timer.Heap.{
  TimerRef, Slots, parent, put_back, earliest_child, siftdown_loop, siftdown_timer,
}
use pentagon.Timer.Heap.Order.{
  IsHeap, IsHeapBut, earliest_child_lem, put_back-update, weigh-move, weigh-put_back, weigh-same,
}

module _ (w : TimerRef → ℕ) (n when : ℕ) where
  -- The free slot `i` on its way down: the saved timer is due no earlier than the parent.
  record Sinking (a : Slots) (i : ℕ) : Type 0 where
    but : IsHeapBut w n a i
    above : 0 < i → w (a (parent i)) ≤ when

  Sinking-step :
      (a : Slots) (i : ℕ)
      → Sinking a i
      → i * 4 + 1 < n
      → let c = earliest_child w a n i in w (a c) < when → Sinking (update a i (a c)) c
  Sinking-step a i s child early =
      let c = earliest_child w a n i in
      let (lt, pos, up, least) = earliest_child_lem w n a i child in
      record {
        but = record {
          edge = λ k pk lk ne ne'.
              ground (arith, s.but.edge k pk lk, s.but.over c pos lt up, least k pk lk);
          over = λ k pk lk ek pp. ground (arith, s.but.edge k pk lk);
        };
        above = λ p. ground arith;
      }

  -- The loop ends where the saved timer is due no later than the children.
  record Sunk (r : Slots × ℕ) : Type 0 where
    sinking : Sinking r.0 r.1
    inside : r.1 < n
    below : (k : ℕ) → 0 < k → k < n → parent k ≡ r.1 → when ≤ w (r.0 k)

  siftdown_loop-Sunk :
      (f : ℕ) (a : Slots) (i : ℕ)
      → n ≤ i + f
      → i < n
      → Sinking a i
      → Sunk (siftdown_loop f w when n a i)
  unfolding siftdown_loop
  siftdown_loop-Sunk zero a i fuel lt s = absurd (omega arith)
  siftdown_loop-Sunk (suc f) a i fuel lt s = elim (Bool-cases (leb n (i * 4 + 1))) [
    | inl leaf ↦
        rw leaf (record { sinking = s; inside = lt; below = λ k p l e. absurd (ground arith) })
    | inr inner ↦
        let child : i * 4 + 1 < n = ground arith in
        let c = earliest_child w a n i in
        let (lc, pos, up, least) = earliest_child_lem w n a i child in
        elim (Bool-cases (leb when (w (a c)))) [
          | inl stop ↦
              let early : when ≤ w (a c) = ground arith in
              rw (inner, stop)
                (record {
                  sinking = s;
                  inside = lt;
                  below = λ k p l e. omega (arith, least k p l e);
                })
          | inr go ↦
              rw (inner, go)
                (siftdown_loop-Sunk f (update a i (a c)) c (omega arith) lc
                  (Sinking-step a i s child (ground arith)))
        ]
  ]

  siftdown_loop-weigh :
      (v : TimerRef → ℕ) (f : ℕ) (a : Slots) (i : ℕ) (t : TimerRef)
      → i < n
      → let (a', j) = siftdown_loop f w when n a i in
        weigh v n (update a' j t) ≡ weigh v n (update a i t)
  unfolding siftdown_loop
  siftdown_loop-weigh v zero a i t lt = refl
  siftdown_loop-weigh v (suc f) a i t lt = elim (Bool-cases (leb n (i * 4 + 1))) [
    | inl leaf ↦ rw leaf
    | inr inner ↦
        let child : i * 4 + 1 < n = ground arith in
        let c = earliest_child w a n i in
        let (lc, pos, up, least) = earliest_child_lem w n a i child in
        elim (Bool-cases (leb when (w (a c)))) [
          | inl stop ↦ rw (inner, stop)
          | inr go ↦
              rw (inner, go)
                (siftdown_loop-weigh v f (update a i (a c)) c t lc
                  ∙ weigh-move v n a i c t lt lc (omega arith))
        ]
  ]

  -- With the saved timer put back, the order holds everywhere.
  Sunk-IsHeap :
      (t : TimerRef) → w t ≡ when → (r : Slots × ℕ) → Sunk r → IsHeap w n (update r.0 r.1 t)
  Sunk-IsHeap t due r s k p lt =
      ground (arith, s.sinking.but.edge k p lt, s.below k p lt, s.sinking.above)

-- A heap whose order may fail between `i` and its children is a heap after the sift.
pub siftdown-IsHeap :
    (w : TimerRef → ℕ) (n : ℕ) (a : Slots) (i : ℕ)
    → i < n
    → IsHeapBut w n a i
    → (0 < i → w (a (parent i)) ≤ w (a i))
    → IsHeap w n (siftdown_timer w a n i) × SameElements n (siftdown_timer w a n i) a
unfolding siftdown_timer
siftdown-IsHeap w n a i lt but up =
    let t = a i in
    let r = siftdown_loop n w (w t) n a i in
    let sunk =
      siftdown_loop-Sunk w n (w t) n a i (omega arith) lt (record { but = but; above = up }) in
    let written : put_back r.0 r.1 t ≡ update r.0 r.1 t = fun_ext (put_back-update r.0 r.1 t) in
    (
      rw written (Sunk-IsHeap w n (w t) t refl r sunk),
      λ v.
          weigh-put_back v n r.0 r.1 t
          ∙ siftdown_loop-weigh w n (w t) v n a i t lt
          ∙ weigh-same v n a i lt,
    )
