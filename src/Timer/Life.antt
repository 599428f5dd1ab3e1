-- ===== src/Timer/Life.antt =====
-- kernel/thread/timer.c, the life of a timer: stopping, modifying and starting it, cleaning the root
-- of the heap, and running what is due. Nobody else writes between two steps of a call, so that every
-- compare-exchange on a status that was just read succeeds, except in `timer_stop`, which Stop has by
-- its atomic actions. The callers run on the CPU of the queue, and `timer_stop` and `timer_modify` get
-- the queue of the CPU that the timer is on.
pub mod Placed
pub mod Stop
pub mod RemoveRoot
pub mod Clean
pub mod RunOne
pub mod RunTimer
mod Tests
use pentagon.Prelude.{
  ◌>>=◌, ℕ, zero, suc, ◌+◌, ◌-◌, ◌*◌, ◌/◌, ◌^◌, ◌%◌, ◌&&◌, ◌||◌, Bool, true, false, not, Option,
  none, some, ltb, ◌==◌, if◌then◌else◌, update, add32, sub32, Outcome, done, panic, waits, or_panic,
  and_then,
}
use pentagon.Timer.Heap.{TimerRef, Slots, siftdown_timer}
use pentagon.Timer.Queue.{
  Status, no_status, waiting, running, deleted, removing, removed, modifying, modified_earlier,
  modified_later, moving, Timer, Timers, when_of, set_timer, is_cpu, update_timer0_when,
  update_timer_modified_earliest, do_add_timer, do_delete_timer0,
}

abbrev pub status_of : Timers → TimerRef → Status
status_of s t = (s.timer t).status

abbrev pub set_status : Timers → TimerRef → Status → Timers
set_status s t x = set_timer s t (record (s.timer t) { status = x })

abbrev pub is_moving : Status → Bool
is_moving moving = true
is_moving _ = false

-- The last release also frees the timer, which nobody reads then.
abbrev pub release_timer : Timers → TimerRef → Timers
release_timer s t =
    set_timer s t (record (s.timer t) { ref_count = ((s.timer t).ref_count + 2 ^ 64 - 1) % 2 ^ 64 })

-- The root is deleted: its status is `removing` meanwhile and `removed` after.
unfoldable pub remove_root : ℕ → Timers → Option Timers
remove_root cpu s =
    let t = s.slots 0 in
    elim (do_delete_timer0 cpu (set_status s t removing)) [
      | none ↦ none
      | some s1 ↦ some (release_timer (set_status s1 t removed) t)
    ]

abbrev pub deleted_less : Timers → Timers
deleted_less s = record s { deleted_timers = sub32 s.deleted_timers 1 }

abbrev pub deleted_more : Timers → Timers
deleted_more s = record s { deleted_timers = add32 s.deleted_timers 1 }

-- The move of a modified root; the ASSERT is that the last exchange fails.
unfoldable pub move_root : ℕ → Timers → Outcome Timers
move_root cpu s =
    let t = s.slots 0 in
    let x = s.timer t in
    let s1 = set_timer s t (record x { status = moving; when = x.nextwhen }) in
    or_panic (do_delete_timer0 cpu s1) (λ s2.
      or_panic (do_add_timer cpu s2 t)
        (λ s3. if not (is_moving (status_of s3 t)) then done s3 else panic))

unfoldable pub clean_root : ℕ → Timers → (Timers → Outcome Timers) → Status → Outcome Timers
clean_root cpu s again deleted = or_panic (remove_root cpu s) (λ s1. again (deleted_less s1))
clean_root cpu s again modified_earlier = and_then (move_root cpu s) again
clean_root cpu s again modified_later = and_then (move_root cpu s) again
clean_root cpu s again other = done s

-- `stop` is `preempt_stop` of the current thread. Fuel above the number of timers is enough.
unfoldable pub clean_timers : ℕ → ℕ → Bool → Timers → Outcome Timers
clean_timers zero cpu stop s = waits
clean_timers (suc f) cpu stop s =
    let t = s.slots 0 in
    let cleaned = clean_root cpu s (clean_timers f cpu stop) (status_of s t) in
    if s.len == 0 || stop then done s else (if is_cpu (s.timer t).cpu cpu then cleaned else panic)

-- What the kernel calls when a timer fires: `func(arg, seq)`.
pub record Call : Type 0 where
  pub func : ℕ
  pub arg : ℕ
  pub seq : ℕ

-- `delta` is not positive: a timer that runs is due. `when` is an int64_t, so a sum from 2 ^ 63 on is
-- negative and becomes INT64_MAX.
unfoldable pub next_when : ℕ → ℕ → ℕ → ℕ
next_when when period now =
    let next = when + period * (1 + (now - when) / period) in
    if ltb next (2 ^ 63) then next else 2 ^ 63 - 1

-- A timer with a period stays in the heap with its next time.
unfoldable pub rearm_root : Timers → ℕ → Option Timers
rearm_root s now =
    let t = s.slots 0 in
    let x = s.timer t in
    let s1 = set_timer s t (record x { when = next_when x.when x.period now }) in
    if ltb 0 (when_of s1 t)
    then some (
        update_timer0_when (
          set_status (record s1 { slots = siftdown_timer (when_of s1) s.slots s.len 0 }) t waiting))
    else none

unfoldable pub retire_root : ℕ → Timers → Option Timers
retire_root cpu s =
    let t = s.slots 0 in
    elim (do_delete_timer0 cpu s) [
      | none ↦ none
      | some s1 ↦ some (release_timer (set_status s1 t no_status) t)
    ]

-- The root, whose status is `running`: the call that follows without the lock, and the queue then.
unfoldable pub run_one_timer : ℕ → Timers → ℕ → Option (Call × Timers)
run_one_timer cpu s now =
    let x = s.timer (s.slots 0) in
    let call : Call = record { func = x.func; arg = x.arg; seq = x.seq } in
    (if ltb 0 x.period then rearm_root s now else retire_root cpu s) >>= λ s1. some (call, s1)

-- What `run_timer` returns: 0 with the call made, -1, or the time of the first timer.
pub data Ran : Type 0 where
  ran : Call → Ran
  no_timers : Ran
  next_at : ℕ → Ran

unfoldable pub after_removal : Timers → (Timers → Outcome (Ran × Timers)) → Outcome (Ran × Timers)
after_removal s again = let rest = again s in if s.len == 0 then done (no_timers, s) else rest

unfoldable pub run_root :
    ℕ → Timers → ℕ → (Timers → Outcome (Ran × Timers)) → Status → Outcome (Ran × Timers)
run_root cpu s now again waiting =
    if ltb now (when_of s (s.slots 0))
    then done (next_at (when_of s (s.slots 0)), s)
    else or_panic (run_one_timer cpu (set_status s (s.slots 0) running) now)
        (λ r. done (ran r.0, r.1))
run_root cpu s now again deleted =
    or_panic (remove_root cpu s) (λ s1. after_removal (deleted_less s1) again)
run_root cpu s now again modified_earlier =
    or_panic (remove_root cpu s) (λ s1. after_removal (deleted_more s1) again)
run_root cpu s now again modified_later =
    or_panic (remove_root cpu s) (λ s1. after_removal (deleted_more s1) again)
run_root cpu s now again modifying = again s
run_root cpu s now again other = panic

-- The loop of `run_timer`; fuel above the number of timers is enough.
unfoldable pub run_timer : ℕ → ℕ → Timers → ℕ → Outcome (Ran × Timers)
run_timer zero cpu s now = waits
run_timer (suc f) cpu s now =
    run_root cpu s now (λ s1. run_timer f cpu s1 now) (status_of s (s.slots 0))
