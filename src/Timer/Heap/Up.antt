-- ===== src/Timer/Heap/Up.antt =====
-- `siftup_timer` restores the heap order above a slot.
use pentagon.Prelude.{
  ℕ, zero, suc, ◌≤◌, ◌<◌, ◌≡◌, ◌≢◌, ◌⊎◌, inl, inr, refl, fun_ext, ◌∙◌, arith, leb, ◌==◌,
  if◌then◌else◌, Bool-cases, update, weigh, SameElements,
}
use pentagon.Timer.Heap.{TimerRef, Slots, parent, put_back, siftup_loop, siftup_timer}
use pentagon.Timer.Heap.Order.{
  IsHeap, IsHeapBut, put_back-update, weigh-move, weigh-put_back, weigh-same,
}

module _ (w : TimerRef → ℕ) (n start when : ℕ) where
  -- The free slot `i` on its way up from `start`; once it has moved, its children are due later
  -- than the saved timer.
  record Rising (a : Slots) (i : ℕ) : Type 0 where
    but : IsHeapBut w n a i
    under : i ≢ start → (k : ℕ) → 0 < k → k < n → parent k ≡ i → when ≤ w (a k)

  Rising-step :
      (a : Slots) (i : ℕ)
      → Rising a i
      → 0 < i
      → i < n
      → when < w (a (parent i))
      → Rising (update a i (a (parent i))) (parent i)
  Rising-step a i r p lt e = record {
    but = record {
      edge = λ k pk lk ne ne'. ground (arith, r.but.edge k pk lk, r.but.over k pk lk);
      over = λ k pk lk ek pp.
          ground (arith, r.but.edge k pk lk, r.but.edge (parent i) pp (omega arith));
    };
    under = λ moved k pk lk ek. ground (arith, r.but.edge k pk lk);
  }

  -- Where the loop that starts at `i` leaves the free slot.
  record Risen (i : ℕ) (r : Slots × ℕ) : Type 0 where
    rising : Rising r.0 r.1
    below : r.1 ≤ i
    placed : (r.1 ≡ 0) ⊎ (w (r.0 (parent r.1)) ≤ when)

  siftup_loop-Risen :
      (f : ℕ) (a : Slots) (i : ℕ) → i ≤ f → i < n → Rising a i → Risen i (siftup_loop f w when a i)
  unfolding siftup_loop
  siftup_loop-Risen zero a i fuel lt r = record {
    rising = r;
    below = omega arith;
    placed = inl (omega arith);
  }
  siftup_loop-Risen (suc f) a i fuel lt r = elim (Bool-cases (i == 0)) [
    | inl z ↦ rw z (record { rising = r; below = omega arith; placed = inl (ground arith) })
    | inr nz ↦ elim (Bool-cases (leb (w (a (parent i))) when)) [
      | inl stop ↦
          rw (nz, stop) (record { rising = r; below = omega arith; placed = inr (ground arith) })
      | inr go ↦
          let pos : 0 < i = ground arith in
          let ih =
            siftup_loop-Risen f (update a i (a (parent i))) (parent i) (omega arith) (omega arith)
              (Rising-step a i r pos lt (ground arith)) in
          rw (nz, go)
            (record { rising = ih.rising; below = omega (arith, ih.below); placed = ih.placed })
    ]
  ]

  siftup_loop-weigh :
      (v : TimerRef → ℕ) (f : ℕ) (a : Slots) (i : ℕ) (t : TimerRef)
      → i < n
      → let (a', j) = siftup_loop f w when a i in
        weigh v n (update a' j t) ≡ weigh v n (update a i t)
  unfolding siftup_loop
  siftup_loop-weigh v zero a i t lt = refl
  siftup_loop-weigh v (suc f) a i t lt = elim (Bool-cases (i == 0)) [
    | inl z ↦ rw z
    | inr nz ↦ elim (Bool-cases (leb (w (a (parent i))) when)) [
      | inl stop ↦ rw (nz, stop)
      | inr go ↦
          let pos : 0 < i = ground arith in
          rw (nz, go)
            (siftup_loop-weigh v f (update a i (a (parent i))) (parent i) t (omega arith)
              ∙ weigh-move v n a i (parent i) t lt (omega arith) (omega arith))
    ]
  ]

  module _ (t : TimerRef) (due : w t ≡ when) (r : Slots × ℕ) (risen : Risen start r) where
    open risen use {rising, below, placed}

    -- With the saved timer put back, an edge holds unless it leads down from where the loop began
    -- and stayed.
    Risen-edge :
        (k : ℕ)
        → 0 < k
        → k < n
        → (r.1 ≢ start) ⊎ (parent k ≢ start)
        → w (update r.0 r.1 t (parent k)) ≤ w (update r.0 r.1 t k)
    Risen-edge k p lt why =
        ground (arith, rising.but.edge k p lt, λ (m : r.1 ≢ start). rising.under m k p lt)

    Risen-IsHeapBut : start < n → IsHeapBut w n (update r.0 r.1 t) start
    Risen-IsHeapBut ls = record {
      edge = λ k p lt ne ne'. Risen-edge k p lt (inr ne');
      over = λ k p lt e pos.
          ground (arith, rising.but.over k p lt, Risen-edge k p lt, Risen-edge start pos ls);
    }

-- What a sift upwards from `i` gives.
pub record SiftedUp (w : TimerRef → ℕ) (n : ℕ) (a : Slots) (i : ℕ) (r : Slots × ℕ) : Type 0 where
  pub index : r.1 ≤ i
  pub above : (k : ℕ) → 0 < k → k < n → parent k ≢ i → w (r.0 (parent k)) ≤ w (r.0 k)
  pub whole : r.1 ≢ i → IsHeap w n r.0
  pub but : IsHeapBut w n r.0 i
  pub same : SameElements n r.0 a

pub siftup-SiftedUp :
    (w : TimerRef → ℕ) (n : ℕ) (a : Slots) (i : ℕ)
    → i < n
    → IsHeapBut w n a i
    → SiftedUp w n a i (siftup_timer w a i)
unfolding siftup_timer
siftup-SiftedUp w n a i lt but =
    let r = siftup_loop i w (w (a i)) a i in
    let risen =
      siftup_loop-Risen w n i (w (a i)) i a i (omega arith) lt
        (record { but = but; under = λ ne. absurd (ne refl) }) in
    let rising = risen.rising in
    let t = a i in
    let written : put_back r.0 r.1 t ≡ update r.0 r.1 t = fun_ext (put_back-update r.0 r.1 t) in
    record {
      index = risen.below;
      above = λ k p l ne. rw written (Risen-edge w n i (w t) t refl r risen k p l (inr ne));
      whole = λ moved k p l. rw written (Risen-edge w n i (w t) t refl r risen k p l (inl moved));
      but = rw written (Risen-IsHeapBut w n i (w t) t refl r risen lt);
      same = λ v.
          weigh-put_back v n r.0 r.1 t
          ∙ siftup_loop-weigh w n i (w t) v i a i t lt
          ∙ weigh-same v n a i lt;
    }

siftup_loop-root :
    (f : ℕ) (w : TimerRef → ℕ) (when : ℕ) (a : Slots) (i : ℕ) → (siftup_loop f w when a i).0 0 ≡ a 0
unfolding siftup_loop
siftup_loop-root zero w when a i = refl
siftup_loop-root (suc f) w when a i =
    ground (arith, siftup_loop-root f w when (update a i (a (parent i))) (parent i))

-- The root changes only if the timer gets there.
pub siftup-root :
    (w : TimerRef → ℕ) (a : Slots) (i : ℕ)
    → let r = siftup_timer w a i in r.0 0 ≡ (if r.1 == 0 then a i else a 0)
unfolding siftup_timer
siftup-root w a i =
    let r = siftup_loop i w (w (a i)) a i in
    ground (arith, put_back-update r.0 r.1 (a i) 0, siftup_loop-root i w (w (a i)) a i)
