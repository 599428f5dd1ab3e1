-- ===== src/Timer/Life/Stop.antt =====
-- kernel/thread/timer.c: `timer_stop` by its atomic actions, `timer_modify` and `timer_start`. The queue is that of the CPU
-- that the timer is on, or of the current CPU for a timer that is on none.
pub mod Laws
pub mod Race
pub mod Keep
pub mod Once
pub mod Start
use pentagon.Prelude.{
  ℕ, ◌+◌, ◌-◌, Bool, true, false, ◌&&◌, ◌||◌, Option, none, some, ltb, ◌==◌, if◌then◌else◌, Outcome,
  done, panic, waits, or_panic, and_then,
}
use pentagon.Timer.Heap.{TimerRef}
use pentagon.Timer.Queue.{
  Status, no_status, waiting, running, deleted, removing, removed, modifying, modified_earlier,
  modified_later, moving, Timer, Timers, set_timer, do_add_timer, update_timer_modified_earliest,
}
use pentagon.Timer.Life.{status_of, set_status, deleted_less, deleted_more, clean_timers}

-- What a call returns: its answer, the queue, how many calls of `scheduler_preempt_disable` it leaves
-- without a `scheduler_preempt_enable`, and the time that it passes to `scheduler_wake_poller`.
pub record Change : Type 0 where
  pub answer : Bool
  pub queue : Timers
  pub preempt : ℕ
  pub wake : Option ℕ

-- The numbers of the enumeration.
abbrev pub status_number : Status → ℕ
status_number no_status = 0
status_number waiting = 1
status_number running = 2
status_number deleted = 3
status_number removing = 4
status_number removed = 5
status_number modifying = 6
status_number modified_earlier = 7
status_number modified_later = 8
status_number moving = 9

-- `atomic_compare_exchange_strong` of the status of a timer.
unfoldable pub exchange_status : Status → Status → Timers → TimerRef → Bool × Timers
exchange_status expected desired s t =
    if status_number (status_of s t) == status_number expected
    then (true, set_status s t desired)
    else (false, s)

-- Where a CPU stands between two atomic actions of `timer_stop`: before the load, before the first
-- exchange with the status that it loaded, before the second one, before it counts the timer, and at
-- the return. Preemption is disabled for the two exchanges.
pub data Stopper : Type 0 where
  loading : Stopper
  loaded : Status → Stopper
  claimed : Stopper
  marked : Stopper
  answered : Bool → Stopper

-- The cases of the loop; `scheduler_yield` leads back to the load.
abbrev pub stop_load : Status → Stopper
stop_load waiting = loaded waiting
stop_load modified_later = loaded modified_later
stop_load modified_earlier = loaded modified_earlier
stop_load deleted = answered false
stop_load removing = answered false
stop_load removed = answered false
stop_load running = loading
stop_load moving = loading
stop_load no_status = answered false
stop_load modifying = loading

-- The second exchange is in an ASSERT.
unfoldable pub stop_next : Stopper → Timers → TimerRef → Outcome (Stopper × Timers)
stop_next loading s t = done (stop_load (status_of s t), s)
stop_next (loaded status) s t =
    let r = exchange_status status modifying s t in done (if r.0 then claimed else loading, r.1)
stop_next claimed s t =
    let r = exchange_status modifying deleted s t in if r.0 then done (marked, r.1) else panic
stop_next marked s t = done (answered true, deleted_more s)
stop_next (answered b) s t = waits

-- The new values of the fields that `timer_modify` sets.
pub record Settings : Type 0 where
  pub when : ℕ
  pub period : ℕ
  pub func : ℕ
  pub arg : ℕ
  pub seq : ℕ

abbrev pub with_settings : Timer → Settings → Timer
with_settings x v = record x { period = v.period; func = v.func; arg = v.arg; seq = v.seq }

-- From `got_timer` on, for a timer that is in no heap. Preemption is disabled once before and once
-- here.
unfoldable pub put_back_modified : ℕ → Timers → TimerRef → Settings → Outcome Change
put_back_modified cpu s t v =
    let x = record (with_settings (s.timer t) v) { status = modifying; when = v.when } in
    or_panic (do_add_timer cpu (set_timer s t x) t) (λ s1.
      done (record {
        answer = false;
        queue = set_status s1 t waiting;
        preempt = 2;
        wake = some v.when;
      }))

abbrev pub marked_timer : Timer → Settings → Timer
marked_timer x v = record (with_settings x v) {
  nextwhen = v.when;
  status = if ltb v.when x.when then modified_earlier else modified_later;
}

-- An earlier time is noted for the poller.
unfoldable pub note_if : Bool → Timers → ℕ → Timers
note_if true s when = update_timer_modified_earliest s when
note_if false s when = s

-- The same for a timer in a heap, which gets its new time in `nextwhen`.
unfoldable pub mark_modified : Bool → Timers → TimerRef → Settings → Outcome Change
mark_modified pending s t v =
    let earlier = ltb v.when (s.timer t).when in
    done (record {
      answer = pending;
      queue = note_if earlier (set_timer s t (marked_timer (s.timer t) v)) v.when;
      preempt = 2;
      wake = if earlier then some v.when else none;
    })

unfoldable pub modify_at : Status → ℕ → Timers → TimerRef → Settings → Outcome Change
modify_at waiting cpu s t v = mark_modified true s t v
modify_at modified_earlier cpu s t v = mark_modified true s t v
modify_at modified_later cpu s t v = mark_modified true s t v
modify_at no_status cpu s t v = put_back_modified cpu s t v
modify_at removed cpu s t v = put_back_modified cpu s t v
modify_at deleted cpu s t v = mark_modified false (deleted_less s) t v
modify_at running cpu s t v = waits
modify_at removing cpu s t v = waits
modify_at moving cpu s t v = waits
modify_at modifying cpu s t v = waits

unfoldable pub timer_modify : ℕ → Timers → TimerRef → Settings → Outcome Change
timer_modify cpu s t v = if ltb 0 v.when then modify_at (status_of s t) cpu s t v else panic

unfoldable pub timer_reset : ℕ → Timers → TimerRef → ℕ → Outcome Change
timer_reset cpu s t when =
    let x = s.timer t in
    timer_modify cpu s t
      (record { when = when; period = x.period; func = x.func; arg = x.arg; seq = x.seq })

-- `f` and `stop` are those of `clean_timers`.
unfoldable pub timer_start : ℕ → ℕ → Bool → Timers → TimerRef → Outcome Change
timer_start f cpu stop s t = and_then (clean_timers f cpu stop (set_status s t waiting)) (λ s1.
    or_panic (do_add_timer cpu s1 t) (λ s2.
      done (record { answer = true; queue = s2; preempt = 0; wake = some (s.timer t).when })))

-- When the poller of a CPU is to wake up, 0 for never.
unfoldable pub nobarrier_wake_time : Timers → ℕ
nobarrier_wake_time s =
    let next = s.timer0_when in
    let next_adj = s.timer_modified_earliest in
    if next == 0 || (ltb 0 next_adj && ltb next_adj next) then next_adj else next
