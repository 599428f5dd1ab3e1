-- ===== src/Timer/Queue/DeleteAt.antt =====
-- `do_delete_timer`, which takes out the timer at any slot.
use pentagon.Prelude.{
  ℕ, suc, ◌+◌, ◌-◌, ◌≤◌, ◌<◌, ◌≡◌, refl, sym, ap, ◌∙◌, arith, Bool-cases, inl, inr, some, ltb,
  lt→ltb, ◌==◌, if◌then◌else◌, update, update-ne, weigh, weigh-zero, weigh-all_zero, weigh-suc,
  SameElements,
}
use native.Mathlib.Decide.{dec_lt}
use pentagon.Timer.Heap.{TimerRef, Slots, siftup_timer, siftdown_timer}
use pentagon.Timer.Heap.Order.{IsHeap, IsHeapBut}
use pentagon.Timer.Heap.Up.{siftup-SiftedUp}
use pentagon.Timer.Heap.Down.{siftdown-IsHeap}
use pentagon.Timer.Queue.{
  Timers, when_of, set_timer, update_timer0_when, resift, finish_delete, do_delete_timer,
}
use pentagon.Timer.Queue.Add.{late, IsValid, when-set_timer}
use pentagon.Timer.Queue.Delete.{due, weigh-filled, filled, root-le, freed}

-- The root of a heap is due when the least of the same timers is, in whatever order they stand.
root-same :
    (w : TimerRef → ℕ) (n : ℕ) (a b : Slots)
    → 0 < n
    → IsHeap w n b
    → SameElements n b a
    → ((k : ℕ) → k < n → w (a 0) ≤ w (a k))
    → w (b 0) ≡ w (a 0)
root-same w n a b pos h same least =
    let m = w (a 0) in
    let before : TimerRef → ℕ = λ t. if ltb (w t) m then 1 else 0 in
    let upto : TimerRef → ℕ = λ t. if ltb m (w t) then 0 else 1 in
    let none_before : weigh before n a ≡ 0 =
      weigh-all_zero before n a (λ k lt. ground (arith, least k lt)) in
    let not_before : before (b 0) ≡ 0 = weigh-zero before n b 0 (same before ∙ none_before) pos in
    elim (dec_lt m (w (b 0))) [
      | yes late_root ↦
          let all_late : weigh upto n b ≡ 0 =
            weigh-all_zero upto n b
              (λ k lt. ground (arith, root-le w n b h k k (omega arith) lt)) in
          let gone : upto (a 0) ≡ 0 = weigh-zero upto n a 0 (sym (same upto) ∙ all_late) pos in
          absurd (ground arith)
      | no early ↦ ground arith
    ]

-- The sift up and then down.
resift-IsHeap :
    (s : Timers) (i : ℕ)
    → i < s.len
    → IsHeapBut (when_of s) s.len s.slots i
    → weigh (late (when_of s)) s.len s.slots ≡ 0
    → (a : Slots) × (j : ℕ) × (resift s i ≡ some (record s { slots = a }, j))
      × (j ≤ i)
      × IsHeap (when_of s) s.len a
      × SameElements s.len a s.slots
unfolding resift
resift-IsHeap s i lt but pos =
    let w = when_of s in
    let r = siftup_timer w s.slots i in
    let up = siftup-SiftedUp w s.len s.slots i lt but in
    let (h, same) = siftdown-IsHeap w s.len r.0 i lt up.but (λ p. up.above i p lt (omega arith)) in
    (
      siftdown_timer w r.0 s.len i,
      r.1,
      rw (
        lt→ltb 0 _ (due w s.len s.slots i pos lt),
        lt→ltb 0 _ (due w s.len r.0 i (up.same (late w) ∙ pos) lt),
      ),
      up.index,
      h,
      λ v. same v ∙ up.same v,
    )

-- What the deletion of slot `i` leaves.
pub record Deleted (s : Timers) (i : ℕ) (r : Timers × ℕ) : Type 0 where
  pub valid : IsValid r.0
  pub changed : r.1 ≤ i
  pub shorter : r.0.len ≡ s.len - 1
  pub rest : (u : TimerRef → ℕ) → u (s.slots i) + weigh u r.0.len r.0.slots ≡ weigh u s.len s.slots
  pub timers : r.0.timer ≡ update s.timer (s.slots i) (freed (s.timer (s.slots i)))

module _ (s : Timers) (i m : ℕ) (v : IsValid s) (whole : s.len ≡ suc m) (lt : i < suc m) where
  abbrev taken : Timers
  taken = set_timer s (s.slots i) (freed (s.timer (s.slots i)))

  same_when : when_of taken ≡ when_of s
  same_when = when-set_timer s (s.slots i) (freed (s.timer (s.slots i))) refl

  order : IsHeap (when_of s) (suc m) s.slots
  order k p l = v.heap k p (omega arith)

  weigh_len : (u : TimerRef → ℕ) → weigh u (suc m) s.slots ≡ weigh u s.len s.slots
  weigh_len u = ap (λ n. weigh u n s.slots) (sym whole)

  -- The array `a` without the timer, and the smallest changed index `j`.
  record Left (a : Slots) (j : ℕ) : Type 0 where
    heap : IsHeap (when_of s) m a
    gone : (u : TimerRef → ℕ) → u (s.slots i) + weigh u m a ≡ weigh u s.len s.slots
    index : j ≤ i
    root : 0 < i → when_of s (a 0) ≡ when_of s (s.slots 0)

  Left-Deleted :
      (a : Slots) (j : ℕ)
      → Left a j
      → Deleted s i (finish_delete i (record taken { slots = a; len = m }, j))
  unfolding finish_delete update_timer0_when
  Left-Deleted a j l =
      let pos : weigh (late (when_of s)) m a ≡ 0 =
        omega (arith, l.gone (late (when_of s)), v.positive) in
      elim (Bool-cases (i == 0)) [
        | inl z ↦ rw z (record {
          valid = record {
            heap = rw same_when l.heap;
            counted = omega (arith, v.counted);
            small = omega (arith, v.small);
            first = refl;
            positive = rw same_when pos;
          };
          changed = l.index;
          shorter = omega arith;
          rest = l.gone;
          timers = refl;
        })
        | inr nz ↦
            let far : 0 < i = ground arith in
            let old : s.timer0_when ≡ when_of s (s.slots 0) = ground (arith, v.first) in
            rw nz (record {
              valid = record {
                heap = rw same_when l.heap;
                counted = omega (arith, v.counted);
                small = omega (arith, v.small);
                first = rw same_when (ground (arith, old, l.root far));
                positive = rw same_when pos;
              };
              changed = l.index;
              shorter = omega arith;
              rest = l.gone;
              timers = refl;
            })
      ]

  -- The last slot is only cut off.
  last-Left : i ≡ m → Left s.slots i
  last-Left e = record {
    heap = λ k p l. order k p (omega arith);
    gone = λ u. omega (arith, weigh-suc u m s.slots, weigh_len u, ap (λ k. u (s.slots k)) e);
    index = omega arith;
    root = λ p. refl;
  }

  -- Any other slot takes the last timer, which is then sifted.
  abbrev hole_filled : Timers
  hole_filled = record taken { slots = update s.slots i (s.slots m); len = m }

  filled-least :
      0 < i
      → (k : ℕ) → k < m
      → when_of s (update s.slots i (s.slots m) 0) ≤ when_of s (update s.slots i (s.slots m) k)
  filled-least far k l = ground (
    arith,
    root-le (when_of s) (suc m) s.slots order k k (omega arith) (omega arith),
    root-le (when_of s) (suc m) s.slots order m m (omega arith) (omega arith),
  )

  inner-Left :
      i < m
      → (a : Slots) × (j : ℕ) × (resift hole_filled i
          ≡ some (record taken { slots = a; len = m }, j))
        × Left a j
  inner-Left li =
      let w = when_of s in
      let full : (u : TimerRef → ℕ)
          → u (s.slots i) + weigh u m (update s.slots i (s.slots m)) ≡ weigh u s.len s.slots =
        λ u. weigh-filled u m s.slots i li ∙ weigh_len u in
      let but : IsHeapBut (when_of hole_filled) m (update s.slots i (s.slots m)) i =
        rw same_when (filled w m s.slots i li order) in
      let pos : weigh (late (when_of hole_filled)) m (update s.slots i (s.slots m)) ≡ 0 =
        rw same_when (omega (arith, full (late w), v.positive)) in
      let (a, j, done, index, h, same) = resift-IsHeap hole_filled i li but pos in
      let h' : IsHeap w m a = rw same_when at h in
      (
        a,
        j,
        done,
        record {
          heap = h';
          gone = λ u. omega (arith, same u, full u);
          index = index;
          root = λ far.
              root-same w m (update s.slots i (s.slots m)) a (omega arith) h' same
                (filled-least far)
              ∙ ap w (update-ne s.slots i 0 (s.slots m) (omega arith));
        },
      )

-- Deleting the timer at any slot of a valid queue ends well: the queue stays valid and holds all but
-- that timer, which is on no CPU, and the returned index is at most that slot.
pub do_delete_timer-Deleted :
    (s : Timers) (i : ℕ)
    → IsValid s
    → i < s.len
    → (r : Timers × ℕ) × (do_delete_timer s i ≡ some r) × Deleted s i r
unfolding do_delete_timer
do_delete_timer-Deleted s i v lt =
    let m = s.len - 1 in
    let whole : s.len ≡ suc m = omega arith in
    let inside : i < suc m = omega arith in
    elim (Bool-cases (i == m)) [
      | inl e ↦ (
        finish_delete i (record (taken s i m v whole inside) { len = m }, i),
        rw e,
        Left-Deleted s i m v whole inside s.slots i (last-Left s i m v whole inside (ground arith)),
      )
      | inr ne ↦
          let (a, j, done, left) = inner-Left s i m v whole inside (ground arith) in
          (
            finish_delete i (record (taken s i m v whole inside) { slots = a; len = m }, j),
            rw (ne, done),
            Left-Deleted s i m v whole inside a j left,
          )
    ]
