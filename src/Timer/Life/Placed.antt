-- ===== src/Timer/Life/Placed.antt =====
-- Where the timers are: each stands in the heap of a CPU once when its `cpu` field names that CPU, and
-- not at all otherwise; the heap operations keep this.
use pentagon.Prelude.{
  ℕ, ◌+◌, ◌-◌, ◌^◌, ◌<◌, ◌≡◌, ap, arith, true, Option, none, some, if◌then◌else◌, update, weigh,
  weigh-here, one_at,
}
use pentagon.Timer.Heap.{TimerRef}
use pentagon.Timer.Queue.{
  Status, waiting, deleted, modified_earlier, modified_later, Timer, Timers, when_of, set_timer,
  is_cpu, claimed, do_add_timer, do_delete_timer0,
}
use pentagon.Timer.Queue.Add.{IsValid, when-set_timer, do_add_timer-IsValid}
use pentagon.Timer.Queue.Delete.{freed, do_delete_timer0-IsValid}
use pentagon.Timer.Life.{status_of}

abbrev pub places : ℕ → Option ℕ → ℕ
places cpu o = if is_cpu o cpu then 1 else 0

pub record IsPlaced (cpu : ℕ) (s : Timers) : Type 0 where
  pub valid : IsValid s
  pub placed : (t : TimerRef) → weigh (one_at t) s.len s.slots ≡ places cpu (s.timer t).cpu

-- A status in which a timer stays in the heap while nobody is at work on it.
abbrev pub unsettled : Status → ℕ
unsettled waiting = 0
unsettled deleted = 0
unsettled modified_earlier = 0
unsettled modified_later = 0
unsettled _ = 1

abbrev pub IsSettled : Timers → Type 0
IsSettled s = weigh (λ t. unsettled (status_of s t)) s.len s.slots ≡ 0

-- A write to a timer that keeps its time and its CPU.
pub set_timer-IsPlaced :
    (cpu : ℕ) (s : Timers) (t : TimerRef) (x : Timer)
    → IsPlaced cpu s
    → x.when ≡ when_of s t
    → x.cpu ≡ (s.timer t).cpu
    → IsPlaced cpu (set_timer s t x)
set_timer-IsPlaced cpu s t x p when home =
    let same = when-set_timer s t x when in
    record {
      valid = record {
        heap = rw same p.valid.heap;
        counted = p.valid.counted;
        small = p.valid.small;
        first = rw same p.valid.first;
        positive = rw same p.valid.positive;
      };
      placed = λ u. ground (arith, p.placed u, home);
    }

-- The counter of deleted timers plays no part.
pub deleted_timers-IsPlaced :
    (cpu : ℕ) (s : Timers) (n : ℕ) → IsPlaced cpu s → IsPlaced cpu (record s { deleted_timers = n })
deleted_timers-IsPlaced cpu s n p = record {
  valid = record {
    heap = p.valid.heap;
    counted = p.valid.counted;
    small = p.valid.small;
    first = p.valid.first;
    positive = p.valid.positive;
  };
  placed = p.placed;
}

-- A timer of the heap is on the CPU.
pub slot-home :
    (cpu : ℕ) (s : Timers) (k : ℕ)
    → IsPlaced cpu s
    → k < s.len
    → is_cpu (s.timer (s.slots k)).cpu cpu ≡ true
slot-home cpu s k p lt = ground (arith, p.placed (s.slots k), weigh-here s.len s.slots k lt)

is_cpu-some : (o : Option ℕ) (cpu : ℕ) → is_cpu o cpu ≡ true → o ≡ some cpu
is_cpu-some none cpu e = cc
is_cpu-some (some c) cpu e = let same : c ≡ cpu = ground arith in ap some same

-- What a deletion of `t` leaves.
pub record Without (cpu : ℕ) (s : Timers) (t : TimerRef) (s' : Timers) : Type 0 where
  pub placed : IsPlaced cpu s'
  pub shorter : s'.len ≡ s.len - 1
  pub rest : (u : TimerRef → ℕ) → u t + weigh u s'.len s'.slots ≡ weigh u s.len s.slots
  pub timers : s'.timer ≡ update s.timer t (freed (s.timer t))

Without-IsPlaced :
    (cpu : ℕ) (s : Timers) (t : TimerRef) (s' : Timers)
    → IsPlaced cpu s
    → IsValid s'
    → is_cpu (s.timer t).cpu cpu ≡ true
    → ((u : TimerRef → ℕ) → u t + weigh u s'.len s'.slots ≡ weigh u s.len s.slots)
    → s'.timer ≡ update s.timer t (freed (s.timer t))
    → IsPlaced cpu s'
Without-IsPlaced cpu s t s' p v home rest timers = record {
  valid = v;
  placed = λ u. rw timers (ground (arith, rest (one_at u), p.placed u, home));
}

pub do_delete_timer0-Without :
    (cpu : ℕ) (s : Timers)
    → IsPlaced cpu s
    → 0 < s.len
    → (s' : Timers) × (do_delete_timer0 cpu s ≡ some s') × Without cpu s (s.slots 0) s'
do_delete_timer0-Without cpu s p lt =
    let home = slot-home cpu s 0 p lt in
    let (s', e, v, short, rest, timers, least) =
      do_delete_timer0-IsValid cpu s p.valid lt (is_cpu-some (s.timer (s.slots 0)).cpu cpu home) in
    (
      s',
      e,
      record {
        placed = Without-IsPlaced cpu s (s.slots 0) s' p v home rest timers;
        shorter = short;
        rest = rest;
        timers = timers;
      },
    )

pub do_add_timer-IsPlaced :
    (cpu : ℕ) (s : Timers) (t : TimerRef)
    → IsPlaced cpu s
    → (s.timer t).cpu ≡ none
    → 0 < when_of s t
    → s.len + 1 < 2 ^ 32
    → (s' : Timers) × (do_add_timer cpu s t ≡ some s')
      × IsPlaced cpu s'
      × (s'.len ≡ s.len + 1)
      × ((u : TimerRef → ℕ) → weigh u s'.len s'.slots ≡ u t + weigh u s.len s.slots)
      × (s'.timer ≡ update s.timer t (claimed cpu (s.timer t)))
do_add_timer-IsPlaced cpu s t p free due room =
    let (s', e, v, longer, more, timers) = do_add_timer-IsValid cpu s t p.valid free due room in
    (
      s',
      e,
      record { valid = v; placed = λ u. rw timers (ground (arith, more (one_at u), p.placed u)) },
      longer,
      more,
      timers,
    )
