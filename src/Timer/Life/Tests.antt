-- ===== src/Timer/Life/Tests.antt =====
-- The life of a timer at concrete values.
use pentagon.Prelude.{
  true, is_panic, add32, ◌⊎◌, done, ℕ, ◌+◌, ◌≡◌, refl, arith, ltb, leb, ◌&&◌, false, none, some,
  ◌==◌, if◌then◌else◌, weigh,
}
use pentagon.Timer.Queue.{modifying, waiting, deleted, no_status, Timer, Timers}
use pentagon.Timer.Life.{set_status, status_of, deleted_more, clean_timers, run_timer}
use pentagon.Timer.Life.Placed.{IsPlaced}
use pentagon.Timer.Life.Clean.{Cleans, clean_timers-Cleans}
use pentagon.Timer.Life.RunTimer.{Runs, run_timer-Runs}
use pentagon.Timer.Life.Stop.{
  Change, Settings, timer_start, loading, loaded, claimed, marked, answered, stop_next,
  exchange_status,
}
use pentagon.Timer.Life.Stop.Race.{World, moved_to, Reach, begin, then_step, act}
use pentagon.Timer.Life.Stop.Once.{timer_stop-once}
use pentagon.Timer.Life.Stop.Start.{Started, timer_start-Started}

-- Timer `t` fires first at `t + 1`, then every 5 microseconds; 10, 11 and 12 are in the heap of CPU 0,
-- and 10 is deleted.
abbrev sample : Timer
sample = record {
  cpu = none;
  when = 0;
  period = 5;
  func = 4096;
  arg = 7;
  seq = 0;
  nextwhen = 0;
  status = no_status;
  ref_count = 1;
}

abbrev in_heap : ℕ → Timer
in_heap t = record sample {
  cpu = some 0;
  when = t + 1;
  status = if t == 10 then deleted else waiting;
}

abbrev queue : Timers
queue = record {
  timer = λ t. if leb 10 t && ltb t 13 then in_heap t else record sample { when = t + 1 };
  slots = λ i. 10 + i;
  len = 3;
  num_timers = 3;
  deleted_timers = 1;
  timer0_when = 11;
  timer_modified_earliest = 0;
}

queue-IsPlaced : IsPlaced 0 queue
unfolding weigh
queue-IsPlaced = record {
  valid = record {
    heap = λ k p lt. ground arith;
    counted = refl;
    small = omega arith;
    first = refl;
    positive = refl;
  };
  placed = λ t. ground arith;
}

clean_timers-Cleans_example : Cleans 0 false queue (clean_timers 4 0 false queue)
clean_timers-Cleans_example = clean_timers-Cleans 4 0 false queue queue-IsPlaced (omega arith)

run_timer-Runs_example : Runs 0 queue 20 (run_timer 3 0 queue 20)
unfolding weigh
run_timer-Runs_example = run_timer-Runs 3 0 queue 20 queue-IsPlaced refl (omega arith) (omega arith)

-- CPU 4 loads the status of timer 11, makes it deleted and counts it; then CPU 3 loads it.
abbrev marking : Timers
marking = set_status (set_status queue 11 modifying) 11 deleted

abbrev at_load : World
at_load = record { queue = queue; phase = λ i. loading }

abbrev at_exchange : World
at_exchange = moved_to at_load 4 (loaded waiting, queue)

abbrev at_claim : World
at_claim = moved_to at_exchange 4 (claimed, set_status queue 11 modifying)

abbrev at_mark : World
at_mark = moved_to at_claim 4 (marked, marking)

abbrev at_count : World
at_count = moved_to at_mark 4 (answered true, deleted_more marking)

abbrev both_stopped : World
both_stopped = moved_to at_count 3 (answered false, deleted_more marking)

both_stopped-Reach : Reach 11 queue both_stopped
unfolding stop_next exchange_status
both_stopped-Reach =
    let r1 : Reach 11 queue at_exchange = then_step begin (act 4 (loaded waiting, queue) refl) in
    let r2 : Reach 11 queue at_claim =
      then_step r1 (act 4 (claimed, set_status queue 11 modifying) refl) in
    let r3 : Reach 11 queue at_mark = then_step r2 (act 4 (marked, marking) refl) in
    let r4 : Reach 11 queue at_count =
      then_step r3 (act 4 (answered true, deleted_more marking) refl) in
    then_step r4 (act 3 (answered false, deleted_more marking) refl)

timer_stop-once_example :
    IsPlaced 0 both_stopped.queue
    × ((i : ℕ) → is_panic (stop_next (both_stopped.phase i) both_stopped.queue 11) ≡ false)
    × ((i : ℕ)
        → both_stopped.phase i ≡ answered true
        → (status_of both_stopped.queue 11 ≡ deleted)
          × (both_stopped.queue.deleted_timers ≡ add32 queue.deleted_timers 1)
          × ((j : ℕ) → both_stopped.phase j ≡ answered true → i ≡ j))
    × ((i : ℕ)
        → both_stopped.phase i ≡ answered false
        → (status_of both_stopped.queue 11 ≡ deleted)
          × ((j : ℕ) × ((both_stopped.phase j ≡ marked) ⊎ (both_stopped.phase j ≡ answered true))))
timer_stop-once_example =
    timer_stop-once 0 queue 11 both_stopped queue-IsPlaced refl both_stopped-Reach

abbrev sooner : Settings
sooner = record { when = 3; period = 0; func = 4096; arg = 8; seq = 1 }

timer_start-Started_example :
    (c : Change) × (timer_start 4 0 false queue 20 ≡ done c) × Started 0 queue 20 c
unfolding weigh
timer_start-Started_example =
    timer_start-Started 4 0 false queue 20 queue-IsPlaced refl (omega arith) (omega arith)
      (λ u there. ground arith) (omega arith)
