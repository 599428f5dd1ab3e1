-- ===== src/Timer/Life/Stop/Start.antt =====
-- `timer_start`: cleaning and adding together.
use pentagon.Prelude.{
  done, ℕ, ◌+◌, ◌<◌, ◌^◌, ◌≡◌, ◌≢◌, refl, sym, ap, subst, ◌∙◌, arith, Bool, true, false, none, some,
  update_self, weigh, one_at, Outcome, panic, waits, or_panic, and_then,
}
use pentagon.Timer.Heap.{TimerRef}
use pentagon.Timer.Queue.{waiting, deleted, Timer, Timers, when_of, claimed, do_add_timer}
use pentagon.Timer.Life.{clean_timers, status_of, set_status}
use pentagon.Timer.Life.Placed.{IsPlaced, set_timer-IsPlaced, do_add_timer-IsPlaced}
use pentagon.Timer.Life.Clean.{Cleans, is_modified, clean_timers-Cleans}
use pentagon.Timer.Life.Stop.{Change, timer_start}

-- What starting a timer leaves.
pub record Started (cpu : ℕ) (s : Timers) (t : TimerRef) (c : Change) : Type 0 where
  pub placed : IsPlaced cpu c.queue
  pub once : weigh (one_at t) c.queue.len c.queue.slots ≡ 1
  pub is_now : c.queue.timer t ≡ claimed cpu (record (s.timer t) { status = waiting })
  pub wake : c.wake ≡ some (when_of s t)
  pub preempt : c.preempt ≡ 0

module _ (cpu : ℕ) (stop : Bool) (s : Timers) (t : TimerRef) (free : (s.timer t).cpu ≡ none)
    (due : 0 < when_of s t) (room : s.len + 1 < 2 ^ 32)
    (unmodified : (u : TimerRef)
      → 0 < weigh (one_at u) s.len s.slots
      → is_modified (status_of s u) ≡ false) where
  abbrev x : Timer
  x = record (s.timer t) { status = waiting }

  abbrev add : Timers → Outcome Change
  add s1 =
      or_panic (do_add_timer cpu s1 t) (λ s2.
        done (record { answer = true; queue = s2; preempt = 0; wake = some (s.timer t).when }))

  cleaned-Started :
      (o : Outcome Timers)
      → Cleans cpu stop (set_status s t waiting) o
      → (c : Change) × (and_then o add ≡ done c) × Started cpu s t c
  cleaned-Started (done s1) h =
      let self : (set_status s t waiting).timer t ≡ x = update_self s.timer t x in
      let awake : status_of (set_status s t waiting) t ≢ deleted =
        λ e. cc (sym (ap (λ (y : Timer). y.status) self) ∙ e) in
      let same : s1.timer t ≡ x = (h.kept t awake).0 ∙ self in
      let free1 : (s1.timer t).cpu ≡ none = ap (λ (y : Timer). y.cpu) same ∙ free in
      let due1 : 0 < when_of s1 t = subst (λ (y : Timer). 0 < y.when) (sym same) due in
      let (s2, e, p, longer, more, timers) =
        do_add_timer-IsPlaced cpu s1 t h.placed free1 due1 (omega (arith, h.shorter)) in
      let at_t : s2.timer t ≡ claimed cpu (s1.timer t) =
        ap (λ g. g t) timers ∙ update_self s1.timer t (claimed cpu (s1.timer t)) in
      (
        record { answer = true; queue = s2; preempt = 0; wake = some (s.timer t).when },
        rw e refl,
        record {
          placed = p;
          once = p.placed t ∙ rw (at_t) (ground arith);
          is_now = at_t ∙ ap (claimed cpu) same;
          wake = refl;
          preempt = refl;
        },
      )
  cleaned-Started panic (u, there, m) = absurd (ground (arith, m, unmodified u there))
  cleaned-Started waits h = elim h [ ]

-- Starting a timer that is on no CPU and has a time, on a queue with room and without modified
-- timers, ends well: the timer waits in the heap, once, and the poller is told its time.
pub timer_start-Started :
    (f cpu : ℕ) (stop : Bool) (s : Timers) (t : TimerRef)
    → IsPlaced cpu s
    → (s.timer t).cpu ≡ none
    → 0 < when_of s t
    → s.len + 1 < 2 ^ 32
    → ((u : TimerRef) → 0 < weigh (one_at u) s.len s.slots → is_modified (status_of s u) ≡ false)
    → s.len < f
    → (c : Change) × (timer_start f cpu stop s t ≡ done c) × Started cpu s t c
unfolding timer_start
timer_start-Started f cpu stop s t p free due room unmodified fuel =
    let x = record (s.timer t) { status = waiting } in
    cleaned-Started cpu stop s t free due room unmodified
      (clean_timers f cpu stop (set_status s t waiting))
      (clean_timers-Cleans f cpu stop (set_status s t waiting)
        (set_timer-IsPlaced cpu s t x p refl refl) fuel)
