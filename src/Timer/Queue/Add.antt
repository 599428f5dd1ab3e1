-- ===== src/Timer/Queue/Add.antt =====
-- `do_add_timer` keeps the timer queue valid and adds exactly the timer.
use pentagon.Prelude.{
  ℕ, suc, ◌+◌, ◌^◌, ◌<◌, ◌≡◌, refl, fun_ext, ◌∙◌, arith, none, some, lt→ltb, ◌==◌, if◌then◌else◌,
  update, update_self, update-ne, weigh, weigh-agree, weigh-suc,
}
use pentagon.Timer.Heap.{TimerRef, Slots, siftup_timer}
use pentagon.Timer.Heap.Order.{IsHeap, IsHeapBut}
use pentagon.Timer.Heap.Up.{SiftedUp, siftup-SiftedUp, siftup-root}
use pentagon.Timer.Queue.{Timer, Timers, when_of, set_timer, claimed, pushed, do_add_timer}

-- Nobody in the heap has `when` 0.
abbrev pub late : (TimerRef → ℕ) → TimerRef → ℕ
late w t = if w t == 0 then 1 else 0

abbrev pub first_when : (TimerRef → ℕ) → Slots → ℕ → ℕ
first_when w a n = if n == 0 then 0 else w (a 0)

pub record IsValid (s : Timers) : Type 0 where
  pub heap : IsHeap (when_of s) s.len s.slots
  pub counted : s.num_timers ≡ s.len
  pub small : s.len < 2 ^ 32
  pub first : s.timer0_when ≡ first_when (when_of s) s.slots s.len
  pub positive : weigh (late (when_of s)) s.len s.slots ≡ 0

-- A write to a timer that keeps its `when` keeps all of them.
pub when-set_timer :
    (s : Timers) (t : TimerRef) (x : Timer)
    → x.when ≡ when_of s t
    → when_of (set_timer s t x) ≡ when_of s
when-set_timer s t x e = fun_ext (λ u. ground arith)

appended :
    (w : TimerRef → ℕ) (n : ℕ) (a : Slots) (t : TimerRef)
    → IsHeap w n a
    → IsHeapBut w (n + 1) (update a n t) n
appended w n a t h = record {
  edge = λ k p lt ne ne'. ground (arith, h k p);
  over = λ k p lt e pos. absurd (omega arith);
}

weigh-appended :
    (v : TimerRef → ℕ) (n : ℕ) (a : Slots) (t : TimerRef)
    → weigh v (n + 1) (update a n t) ≡ v t + weigh v n a
weigh-appended v n a t =
    let whole : n + 1 ≡ suc n = omega arith in
    let same = weigh-agree v n (update a n t) a (λ k lt. update-ne a n k t (omega arith)) in
    rw (whole, weigh-suc, same, update_self)

-- The timer pushed and sifted up, on a state in which it is already marked as owned.
module _ (s : Timers) (t : TimerRef) (v : IsValid s) (due : 0 < when_of s t)
    (room : s.len + 1 < 2 ^ 32) where
  abbrev w : TimerRef → ℕ
  w = when_of s

  abbrev sifted : Slots × ℕ
  sifted = siftup_timer w (update s.slots s.len t) s.len

  sifted-SiftedUp : SiftedUp w (s.len + 1) (update s.slots s.len t) s.len sifted
  sifted-SiftedUp =
      siftup-SiftedUp w (s.len + 1) (update s.slots s.len t) s.len (omega arith)
        (appended w s.len s.slots t v.heap)

  pushed-weigh :
      (u : TimerRef → ℕ) → weigh u (s.len + 1) (pushed s t).slots ≡ u t + weigh u s.len s.slots
  pushed-weigh u = sifted-SiftedUp.same u ∙ weigh-appended u s.len s.slots t

  pushed-first : (pushed s t).timer0_when ≡ w ((pushed s t).slots 0)
  pushed-first =
      ground (arith, v.first, sifted-SiftedUp.index, siftup-root w (update s.slots s.len t) s.len)

  pushed-IsValid : IsValid (pushed s t)
  pushed-IsValid = record {
    heap = λ k p lt. sifted-SiftedUp.above k p lt (omega arith);
    counted = omega (arith, v.counted);
    small = room;
    first = ground (arith, pushed-first);
    positive = pushed-weigh (late w) ∙ ground (arith, v.positive);
  }

-- Adding a timer that is on no CPU and has a time ends well: the queue stays valid, holds the old
-- timers and the new one, and the timer is marked as on this CPU, with one more reference.
pub do_add_timer-IsValid :
    (cpu : ℕ) (s : Timers) (t : TimerRef)
    → IsValid s
    → (s.timer t).cpu ≡ none
    → 0 < when_of s t
    → s.len + 1 < 2 ^ 32
    → (s' : Timers) × (do_add_timer cpu s t ≡ some s')
      × IsValid s'
      × (s'.len ≡ s.len + 1)
      × ((u : TimerRef → ℕ) → weigh u s'.len s'.slots ≡ u t + weigh u s.len s.slots)
      × (s'.timer ≡ update s.timer t (claimed cpu (s.timer t)))
unfolding do_add_timer
do_add_timer-IsValid cpu s t v free due room =
    let s1 : Timers = set_timer s t (claimed cpu (s.timer t)) in
    let same : when_of s1 ≡ when_of s = when-set_timer s t (claimed cpu (s.timer t)) refl in
    let v1 : IsValid s1 = record {
      heap = rw same v.heap;
      counted = v.counted;
      small = v.small;
      first = rw same v.first;
      positive = rw same v.positive;
    } in
    let due1 : 0 < when_of s1 t = rw same due in
    (
      pushed s1 t,
      rw (free, lt→ltb 0 (when_of s t) due),
      pushed-IsValid s1 t v1 due1 room,
      refl,
      pushed-weigh s1 t v1 due1 room,
      refl,
    )
