-- ===== src/Scheduler/Suspend/Tests.antt =====
-- The suspension of a thread at concrete values.
use pentagon.Prelude.{ℕ, ◌≡◌, refl, true, false, update}
use pentagon.Scheduler.Suspend.{
  State, idle, dead, waiting, ThreadStatus, plain, suspend, Suspendable, outside, looping, loaded,
  owns, suspend_next, cas_thread_state, suspend_round, suspend_at, cas_to_suspend, World, act,
  moves, Reach, begin, then_step,
}
use pentagon.Scheduler.Suspend.Guard.{is_suspended, holds, is_done}
use pentagon.Scheduler.Suspend.Owner.{suspended_by_one}

abbrev thread : ThreadStatus → Suspendable
thread s = record { status = s; preempt_stop = false }

-- A new thread waits, and caller 3 suspends it.
abbrev sleeping : World
sleeping = record { thread = thread (plain waiting); phase = λ i. outside }

sleeping-Reach : Reach sleeping
unfolding cas_thread_state
sleeping-Reach =
    then_step (then_step begin (moves idle dead (thread (plain dead)) refl))
      (moves dead waiting (thread (plain waiting)) refl)

abbrev asked : World
asked = record {
  thread = thread (plain waiting);
  phase = update (update (λ i. outside) 3 (looping false)) 3 (loaded false (plain waiting));
}

asked-Reach : Reach asked
unfolding suspend_next
asked-Reach =
    then_step (then_step sleeping-Reach (act 3 (looping false) (thread (plain waiting)) refl))
      (act 3 (loaded false (plain waiting)) (thread (plain waiting)) refl)

abbrev stopped : World
stopped = record { thread = thread (suspend waiting); phase = update asked.phase 3 (owns false) }

stopped-Reach : Reach stopped
unfolding suspend_next suspend_round suspend_at cas_to_suspend
stopped-Reach = then_step asked-Reach (act 3 (owns false) (thread (suspend waiting)) refl)

suspended_by_one_example :
    (is_suspended stopped.thread.status ≡ true)
    × ((j : ℕ) → holds (stopped.phase j) ≡ true → 3 ≡ j)
    × ((old new : State) → is_done (cas_thread_state stopped.thread old new) ≡ false)
    × (is_done (suspend_next (stopped.phase 3) stopped.thread) ≡ true)
suspended_by_one_example = suspended_by_one stopped 3 stopped-Reach refl
