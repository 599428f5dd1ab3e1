-- ===== src/Timer/Life/RunOne.antt =====
-- `run_one_timer`: the next time of a timer with a period, and the heap after the run.
use pentagon.Prelude.{
  ◌>>=◌, update-ne, subst, lt→ltb, update_self, weigh-all_zero, SameElements, weigh-twice, ℕ, zero,
  suc, ◌+◌, ◌-◌, ◌*◌, ◌/◌, ◌%◌, ◌^◌, ◌≤◌, ◌<◌, ◌≡◌, ◌≢◌, refl, sym, ap, ◌∙◌, arith, true, none,
  some, ltb, if◌then◌else◌, weigh, one_at,
}
use native.Mathlib.Nat.{div-add-mod, mod-lt, mul-add, mul-one}
use pentagon.Timer.Heap.{TimerRef, parent, siftdown_timer}
use pentagon.Timer.Heap.Order.{IsHeap, IsHeapBut}
use pentagon.Timer.Heap.Down.{siftdown-IsHeap}
use pentagon.Timer.Queue.{no_status, waiting, Timer, Timers, when_of, set_timer, update_timer0_when}
use pentagon.Timer.Queue.Add.{late, when-set_timer}
use pentagon.Timer.Queue.Delete.{freed, due}
use pentagon.Timer.Life.{
  release_timer, Call, status_of, set_status, next_when, rearm_root, retire_root, run_one_timer,
}
use pentagon.Timer.Life.Placed.{places, IsPlaced, set_timer-IsPlaced, do_delete_timer0-Without}

-- The next time of a due timer with a period is after now and at most one period later, where
-- int64_t holds it.
pub next_when-due :
    (when period now : ℕ)
    → when ≤ now
    → 0 < period
    → now + period < 2 ^ 63
    → (now < next_when when period now) × (next_when when period now ≤ now + period)
unfolding next_when
next_when-due when period now past pos small =
    let q = (now - when) / period in
    let split : period * (1 + q) ≡ period + period * q =
      mul-add period 1 q ∙ ap (λ m. m + period * q) (mul-one period) in
    ground (arith, div-add-mod (now - when) period, mod-lt (now - when) pos, split)

module _ (cpu : ℕ) (s : Timers) (p : IsPlaced cpu s) (here : 0 < s.len) (x : Timer)
    (home : x.cpu ≡ (s.timer (s.slots 0)).cpu) (soon : 0 < x.when) where
  abbrev t : TimerRef
  t = s.slots 0

  abbrev s1 : Timers
  s1 = set_timer s t x

  -- The root stands nowhere else.
  others : (k : ℕ) → 0 < k → k < s.len → t ≢ s.slots k
  others k pos lt e =
      ground (arith, weigh-twice s.len s.slots 0 k here lt (omega arith) e, p.placed (s.slots k))

  others-when : (k : ℕ) → 0 < k → k < s.len → when_of s1 (s.slots k) ≡ when_of s (s.slots k)
  others-when k pos lt = ground (arith, others k pos lt)

  but : IsHeapBut (when_of s1) s.len s.slots 0
  but = record {
    edge = λ k pos lt ne ne'.
        rw (others-when k pos lt, others-when (parent k) (omega arith) (omega arith))
          (p.valid.heap k pos lt);
    over = λ k pos lt e none_above. absurd (omega arith);
  }

  sunk :
      IsHeap (when_of s1) s.len (siftdown_timer (when_of s1) s.slots s.len 0)
      × SameElements s.len (siftdown_timer (when_of s1) s.slots s.len 0) s.slots
  sunk = siftdown-IsHeap (when_of s1) s.len s.slots 0 here but (λ pos. absurd (omega arith))

  in_time : weigh (late (when_of s1)) s.len s.slots ≡ 0
  in_time =
      weigh-all_zero (late (when_of s1)) s.len s.slots
        (λ k lt. ground (arith, soon, due (when_of s) s.len s.slots k p.valid.positive lt))

  -- The heap when the root has its new time, up to the counter `timer0_when`.
  sunk-IsPlaced :
      (y : Timer)
      → y.when ≡ x.when
      → y.cpu ≡ x.cpu
      → let s2 = record s1 { slots = siftdown_timer (when_of s1) s.slots s.len 0 } in
        IsPlaced cpu (update_timer0_when (set_timer s2 t y))
  unfolding update_timer0_when
  sunk-IsPlaced y same_when same_cpu =
      let s2 = record s1 { slots = siftdown_timer (when_of s1) s.slots s.len 0 } in
      let same : when_of (set_timer s2 t y) ≡ when_of s1 =
        when-set_timer s2 t y
          (same_when ∙ sym (ap (λ (z : Timer). z.when) (update_self s.timer t x))) in
      record {
        valid = record {
          heap = rw same sunk.0;
          counted = p.valid.counted;
          small = p.valid.small;
          first = refl;
          positive = rw same (sunk.1 (late (when_of s1)) ∙ in_time);
        };
        placed =
            λ u. sunk.1 (one_at u) ∙ p.placed u ∙ ap (places cpu) (ground (arith, home, same_cpu));
      }

-- What `run_one_timer` leaves of a timer with a period, and of one without.
pub record Rearmed (cpu : ℕ) (s : Timers) (now : ℕ) (s' : Timers) : Type 0 where
  pub placed : IsPlaced cpu s'
  pub same_len : s'.len ≡ s.len
  pub status : status_of s' (s.slots 0) ≡ waiting
  pub when :
      when_of s' (s.slots 0) ≡ next_when (when_of s (s.slots 0)) (s.timer (s.slots 0)).period now
  pub others : (u : TimerRef) → s.slots 0 ≢ u → s'.timer u ≡ s.timer u
  pub elements : (v : TimerRef → ℕ) → weigh v s'.len s'.slots ≡ weigh v s.len s.slots

pub record Retired (cpu : ℕ) (s s' : Timers) : Type 0 where
  pub placed : IsPlaced cpu s'
  pub shorter : s'.len ≡ s.len - 1
  pub status : status_of s' (s.slots 0) ≡ no_status
  pub gone : (s'.timer (s.slots 0)).cpu ≡ none
  pub others : (u : TimerRef) → s.slots 0 ≢ u → s'.timer u ≡ s.timer u
  pub elements :
      (v : TimerRef → ℕ) → v (s.slots 0) + weigh v s'.len s'.slots ≡ weigh v s.len s.slots

next_when-pos : (when period now : ℕ) → 0 < when → 0 < next_when when period now
unfolding next_when
next_when-pos when period now pos = let more = period * (1 + (now - when) / period) in ground arith

rearm_root-Rearmed :
    (cpu : ℕ) (s : Timers) (now : ℕ)
    → IsPlaced cpu s
    → 0 < s.len
    → (s' : Timers) × (rearm_root s now ≡ some s') × Rearmed cpu s now s'
unfolding rearm_root update_timer0_when
rearm_root-Rearmed cpu s now p here =
    let t = s.slots 0 in
    let old = s.timer t in
    let x = record old { when = next_when old.when old.period now } in
    let soon =
      next_when-pos old.when old.period now
        (due (when_of s) s.len s.slots 0 p.valid.positive here) in
    let s1 = set_timer s t x in
    let s2 = record s1 { slots = siftdown_timer (when_of s1) s.slots s.len 0 } in
    let y = record (s2.timer t) { status = waiting } in
    let self : s2.timer t ≡ x = update_self s.timer t x in
    let due_now : 0 < when_of s1 t = subst (λ (z : Timer). 0 < z.when) (sym self) soon in
    (
      update_timer0_when (set_status s2 t waiting),
      rw (lt→ltb 0 (when_of s1 t) due_now) refl,
      record {
        placed =
            sunk-IsPlaced cpu s p here x refl soon y (ap (λ (z : Timer). z.when) self)
              (ap (λ (z : Timer). z.cpu) self);
        same_len = refl;
        status = ap (λ (z : Timer). z.status) (update_self s2.timer t y);
        when =
            ap (λ (z : Timer). z.when) (update_self s2.timer t y) ∙ ap (λ (z : Timer). z.when) self;
        others = λ u ne. update-ne s2.timer t u y ne ∙ update-ne s.timer t u x ne;
        elements = (sunk cpu s p here x refl soon).1;
      },
    )

retire_root-Retired :
    (cpu : ℕ) (s : Timers)
    → IsPlaced cpu s
    → 0 < s.len
    → (s' : Timers) × (retire_root cpu s ≡ some s') × Retired cpu s s'
unfolding retire_root
retire_root-Retired cpu s p here =
    let t = s.slots 0 in
    let (s1, e, d) = do_delete_timer0-Without cpu s p here in
    let y = record (s1.timer t) { status = no_status } in
    let s2 = set_status s1 t no_status in
    let p2 = set_timer-IsPlaced cpu s1 t y d.placed refl refl in
    let z = record (s2.timer t) { ref_count = ((s2.timer t).ref_count + 2 ^ 64 - 1) % 2 ^ 64 } in
    let self : s2.timer t ≡ y = update_self s1.timer t y in
    (
      release_timer s2 t,
      rw (e, retire_root) refl,
      record {
        placed = set_timer-IsPlaced cpu s2 t z p2 refl refl;
        shorter = d.shorter;
        status =
            ap (λ (z : Timer). z.status) (update_self s2.timer t z)
            ∙ ap (λ (z : Timer). z.status) self;
        gone =
            ap (λ (z : Timer). z.cpu) (update_self s2.timer t z)
            ∙ ap (λ (z : Timer). z.cpu) self
            ∙ ap (λ g. (g t).cpu) d.timers
            ∙ ap (λ (z : Timer). z.cpu) (update_self s.timer t (freed (s.timer t)));
        others = λ u ne.
            update-ne s2.timer t u z ne
            ∙ update-ne s1.timer t u y ne
            ∙ ap (λ g. g u) d.timers
            ∙ update-ne s.timer t u (freed (s.timer t)) ne;
        elements = d.rest;
      },
    )

-- What `run_one_timer` leaves, by the period of the root.
abbrev pub RanOne : ℕ → Timers → ℕ → ℕ → Timers → Type 0
RanOne cpu s now zero s' = Retired cpu s s'
RanOne cpu s now (suc period) s' = Rearmed cpu s now s'

abbrev pub call_of : Timer → Call
call_of x = record { func = x.func; arg = x.arg; seq = x.seq }

run_by_period :
    (cpu : ℕ) (s : Timers) (now m : ℕ)
    → IsPlaced cpu s
    → 0 < s.len
    → (s' : Timers) × ((if ltb 0 m then rearm_root s now else retire_root cpu s) ≡ some s')
      × RanOne cpu s now m s'
run_by_period cpu s now zero p here = retire_root-Retired cpu s p here
run_by_period cpu s now (suc m) p here =
    let some_left : ltb 0 (suc m) ≡ true = ground arith in
    rw some_left (rearm_root-Rearmed cpu s now p here)

-- `run_one_timer` on a heap that is not empty ends well with the call of the root. A root with a
-- period stays in the heap with its next time and waits; one without leaves the heap for good.
pub run_one_timer-RanOne :
    (cpu : ℕ) (s : Timers) (now : ℕ)
    → IsPlaced cpu s
    → 0 < s.len
    → (s' : Timers) × (run_one_timer cpu s now ≡ some (call_of (s.timer (s.slots 0)), s'))
      × RanOne cpu s now (s.timer (s.slots 0)).period s'
unfolding run_one_timer
run_one_timer-RanOne cpu s now p here =
    let x = s.timer (s.slots 0) in
    let (s', e, r) = run_by_period cpu s now x.period p here in
    (s', ap (λ o. o >>= λ s1. some (call_of x, s1)) e, r)
