-- ===== src/Timer/Queue/Delete.antt =====
-- `do_delete_timer0` and `do_delete_timer` keep the timer queue valid and take out exactly the timer.
use pentagon.Prelude.{
  ℕ, zero, suc, ◌+◌, ◌-◌, ◌≤◌, ◌<◌, ◌≡◌, refl, sym, ap, ◌∙◌, arith, false, Bool-cases, inl, inr,
  none, some, lt→ltb, ◌==◌, ==-refl, if◌then◌else◌, update, weigh, weigh-suc, weigh-zero,
  weigh-update, SameElements,
}
use native.Mathlib.Decide.{ℕ_discrete}
use pentagon.Timer.Heap.{TimerRef, Slots, parent, siftdown_timer}
use pentagon.Timer.Heap.Order.{IsHeap, IsHeapBut}
use pentagon.Timer.Heap.Down.{siftdown-IsHeap}
use pentagon.Timer.Queue.{
  Timer, Timers, when_of, set_timer, one_less, update_timer0_when, sink_root, do_delete_timer0,
}
use pentagon.Timer.Queue.Add.{late, IsValid, when-set_timer}

-- All timers in the array have a time.
pub due :
    (w : TimerRef → ℕ) (n : ℕ) (a : Slots) (k : ℕ) → weigh (late w) n a ≡ 0 → k < n → 0 < w (a k)
due w n a k e lt = ground (arith, weigh-zero (late w) n a k e lt)

-- What is left when slot `i` takes the last timer and the array gets shorter.
pub weigh-filled :
    (u : TimerRef → ℕ) (n : ℕ) (a : Slots) (i : ℕ)
    → i < n
    → u (a i) + weigh u n (update a i (a n)) ≡ weigh u (suc n) a
weigh-filled u n a i lt = omega (arith, weigh-update u n a i (a n) lt, weigh-suc u n a)

pub filled :
    (w : TimerRef → ℕ) (n : ℕ) (a : Slots) (i : ℕ)
    → i < n
    → IsHeap w (suc n) a
    → IsHeapBut w n (update a i (a n)) i
filled w n a i lt h = record {
  edge = λ k p lk ne ne'. ground (arith, h k p);
  over = λ k p lk e pos. ground (arith, h k p, h i pos);
}

-- The earliest timer is at the root.
pub root-le :
    (w : TimerRef → ℕ) (n : ℕ) (a : Slots)
    → IsHeap w n a
    → (f k : ℕ) → k ≤ f
    → k < n
    → w (a 0) ≤ w (a k)
root-le w n a h zero k le lt = let e : k ≡ 0 = omega arith in rw e (omega arith)
root-le w n a h (suc f) k le lt = elim (ℕ_discrete k 0) [
  | yes e ↦ rw e (omega arith)
  | no ne ↦
      omega (arith, root-le w n a h f (parent k) (omega arith) (omega arith), h k (omega arith) lt)
]

sink_root-IsHeap :
    (s : Timers)
    → IsHeapBut (when_of s) s.len s.slots 0
    → weigh (late (when_of s)) s.len s.slots ≡ 0
    → (a : Slots) × (sink_root s ≡ some (record s { slots = a }))
      × IsHeap (when_of s) s.len a
      × SameElements s.len a s.slots
unfolding sink_root
sink_root-IsHeap s but pos = elim (Bool-cases (s.len == 0)) [
  | inl e ↦ (s.slots, rw e, (λ k p lt. absurd (ground arith)), λ v. refl)
  | inr ne ↦
      let here : 0 < s.len = ground arith in
      let (h, same) =
        siftdown-IsHeap (when_of s) s.len s.slots 0 here but (λ p. absurd (omega arith)) in
      (
        siftdown_timer (when_of s) s.slots s.len 0,
        rw (ne, lt→ltb 0 _ (due (when_of s) s.len s.slots 0 pos here)),
        h,
        same,
      )
]

-- The array of `do_delete_timer0` after the root is popped, `rest` timers long.
abbrev root_popped : ℕ → Slots → Slots
root_popped rest a = if rest == 0 then a else update a 0 (a rest)

weigh-root_popped :
    (u : TimerRef → ℕ) (rest : ℕ) (a : Slots)
    → u (a 0) + weigh u rest (root_popped rest a) ≡ weigh u (suc rest) a
weigh-root_popped u zero a = sym (weigh-suc u 0 a)
weigh-root_popped u (suc m) a =
    let nonzero : (suc m == 0) ≡ false = ground arith in
    rw nonzero (weigh-filled u (suc m) a 0 (omega arith))

root_popped-IsHeapBut :
    (w : TimerRef → ℕ) (rest : ℕ) (a : Slots)
    → IsHeap w (suc rest) a
    → IsHeapBut w rest (root_popped rest a) 0
root_popped-IsHeapBut w zero a h = record {
  edge = λ k p lt ne ne'. absurd (omega arith);
  over = λ k p lt e pos. absurd (omega arith);
}
root_popped-IsHeapBut w (suc m) a h =
    let nonzero : (suc m == 0) ≡ false = ground arith in
    rw nonzero (filled w (suc m) a 0 (omega arith) h)

-- The timer that is taken off its CPU.
abbrev pub freed : Timer → Timer
freed x = record x { cpu = none }

-- Deleting the root of a queue that is not empty ends well: the queue stays valid and holds all but
-- the root, which was due first.
pub do_delete_timer0-IsValid :
    (cpu : ℕ) (s : Timers)
    → IsValid s
    → 0 < s.len
    → (s.timer (s.slots 0)).cpu ≡ some cpu
    → (s' : Timers) × (do_delete_timer0 cpu s ≡ some s')
      × IsValid s'
      × (s'.len ≡ s.len - 1)
      × ((u : TimerRef → ℕ) → u (s.slots 0) + weigh u s'.len s'.slots ≡ weigh u s.len s.slots)
      × (s'.timer ≡ update s.timer (s.slots 0) (freed (s.timer (s.slots 0))))
      × ((k : ℕ) → k < s.len → when_of s (s.slots 0) ≤ when_of s (s.slots k))
unfolding do_delete_timer0 update_timer0_when
do_delete_timer0-IsValid cpu s v here mine =
    let t = s.slots 0 in
    let rest = s.len - 1 in
    let whole : s.len ≡ suc rest = omega arith in
    let moved : Slots = root_popped rest s.slots in
    let s1 : Timers = record (set_timer s t (freed (s.timer t))) { slots = moved; len = rest } in
    let same : when_of s1 ≡ when_of s = when-set_timer s t (freed (s.timer t)) refl in
    let gone : (u : TimerRef → ℕ) → u t + weigh u rest moved ≡ weigh u s.len s.slots =
      λ u. weigh-root_popped u rest s.slots ∙ ap (λ n. weigh u n s.slots) (sym whole) in
    let but : IsHeapBut (when_of s1) rest moved 0 =
      rw same
        (root_popped-IsHeapBut (when_of s) rest s.slots (λ k p lt. v.heap k p (omega arith))) in
    let pos : weigh (late (when_of s1)) rest moved ≡ 0 =
      rw same (omega (arith, gone (late (when_of s)), v.positive)) in
    let (a, sunk, h, kept) = sink_root-IsHeap s1 but pos in
    (
      one_less (update_timer0_when (record s1 { slots = a })),
      rw (mine, ==-refl cpu, sunk),
      record {
        heap = h;
        counted = omega (arith, v.counted);
        small = omega (arith, v.small);
        first = refl;
        positive = kept (late (when_of s1)) ∙ pos;
      },
      refl,
      λ u. omega (arith, kept u, gone u),
      refl,
      λ k lt. root-le (when_of s) s.len s.slots v.heap k k (omega arith) lt,
    )
