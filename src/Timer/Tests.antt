-- ===== src/Timer/Tests.antt =====
-- The timer heap and the timer queue at concrete values.
use pentagon.Prelude.{
  ℕ, ◌+◌, ◌*◌, ◌≡◌, refl, arith, ltb, Option, none, some, ◌==◌, if◌then◌else◌, update, weigh,
  weigh-all_zero,
}
use pentagon.Timer.Heap.{TimerRef, Slots}
use pentagon.Timer.Queue.{Status, Timer, Timers, when_of, claimed, do_add_timer, do_delete_timer}
use pentagon.Timer.Queue.Add.{IsValid, late, do_add_timer-IsValid}
use pentagon.Timer.Queue.DeleteAt.{Deleted, do_delete_timer-Deleted}

-- Timer `t` is due at time `t`.
abbrev due_at : TimerRef → ℕ
due_at t = t

-- The root 40 is due too late.
abbrev heavy_root : Slots
heavy_root i = if i == 0 then 40 else 10 * i

-- The last leaf 5 is due too early.
abbrev light_leaf : Slots
light_leaf i = if i == 6 then 5 else 10 * (i + 1)

abbrev timer_at : ℕ → Option ℕ → Timer
timer_at when cpu = record {
  cpu = cpu;
  when = when;
  period = 0;
  func = 4096;
  arg = 0;
  seq = 0;
  nextwhen = 0;
  status = Status.waiting;
  ref_count = 1;
}

-- Three timers on CPU 0, due at 11, 12 and 13; the other timers are on no CPU.
abbrev three : Timers
three = record {
  timer = λ t. timer_at (t + 1) (if ltb t 13 then some 0 else none);
  slots = λ i. 10 + i;
  len = 3;
  num_timers = 3;
  deleted_timers = 0;
  timer0_when = 11;
  timer_modified_earliest = 0;
}

three-IsValid : IsValid three
three-IsValid = record {
  heap = λ k p lt. omega arith;
  counted = refl;
  small = omega arith;
  first = refl;
  positive = weigh-all_zero (late (when_of three)) 3 three.slots (λ k lt. ground arith);
}

do_add_timer-IsValid_example :
    (s' : Timers) × (do_add_timer 0 three 20 ≡ some s')
    × IsValid s'
    × (s'.len ≡ 4)
    × ((u : TimerRef → ℕ) → weigh u s'.len s'.slots ≡ u 20 + weigh u 3 three.slots)
    × (s'.timer ≡ update three.timer 20 (claimed 0 (three.timer 20)))
do_add_timer-IsValid_example =
    do_add_timer-IsValid 0 three 20 three-IsValid refl (omega arith) (omega arith)

do_delete_timer-Deleted_example :
    (r : Timers × ℕ) × (do_delete_timer three 1 ≡ some r) × Deleted three 1 r
do_delete_timer-Deleted_example = do_delete_timer-Deleted three 1 three-IsValid (omega arith)
