-- ===== src/Scheduler/RunQueue/Take.antt =====
-- `run_queue_get`: the thread to run next, else the first of the local queue.
use pentagon.Prelude.{
  ℕ, ◌%◌, ◌≡◌, refl, ap, ◌∙◌, Option, none, some, List, [], ◌∷◌, arith, Distinct-of_append,
  Apart-of_append, Distinct-append, add32, ==-refl, ◌==◌, false,
}
use pentagon.Scheduler.ThreadQueue.{Thread}
use pentagon.Scheduler.RunQueue.{
  LocalRunQueue, Scheduler, size, run_queue_len, run_queue_get_loop, run_queue_get, get_next,
  set_local,
}
use pentagon.Scheduler.RunQueue.Window.{window-eq-nil, window-eq-cons}
use pentagon.Scheduler.RunQueue.Invariant.{IsValid, queued, set_local-Queues}
use pentagon.Scheduler.RunQueue.Put.{View, Shows}

-- The abstract get.
abbrev pub get_own : View → List Thread → Option Thread × View
get_own v [] = (none, v)
get_own v (t ∷ ts) = (some t, record v { own = ts })

abbrev pub get_view : View → Option Thread → Option Thread × View
get_view v (some t) = (some t, record v { next = none })
get_view v none = get_own v v.own

abbrev advanced : LocalRunQueue → LocalRunQueue
advanced rq = record rq { head = add32 rq.head 1 }

get_loop_nil :
    (s : Scheduler) (cpu : ℕ)
    → (s.local cpu).tail ≡ (s.local cpu).head
    → run_queue_get_loop 1 s cpu ≡ some (none, s)
unfolding run_queue_get_loop
get_loop_nil s cpu e = ground arith

get_loop_cons :
    (s : Scheduler) (cpu : ℕ)
    → ((s.local cpu).tail == (s.local cpu).head) ≡ false
    → run_queue_get_loop 1 s cpu
      ≡ some (
        some ((s.local cpu).queue ((s.local cpu).head % run_queue_len)),
        set_local s cpu (advanced (s.local cpu)),
      )
unfolding run_queue_get_loop
get_loop_cons s cpu e = rw (e, ==-refl (s.local cpu).head)

advanced-IsValid :
    (rq : LocalRunQueue) (t : Thread) (ts : List Thread)
    → IsValid rq
    → queued rq ≡ t ∷ ts
    → IsValid (advanced rq)
      × (rq.queue (rq.head % run_queue_len) ≡ t)
      × (queued (advanced rq) ≡ ts)
      × ((rq.tail == rq.head) ≡ false)
advanced-IsValid rq t ts v e =
    let (m, grown, first, rest) = window-eq-cons rq.queue rq.head (size rq) e in
    let less : size (advanced rq) ≡ m = omega arith in
    (
      record { head_small = omega arith; tail_small = v.tail_small; fits = omega arith },
      first,
      rw less rest,
      ground arith,
    )

get_loop-Shows :
    (s : Scheduler) (cpu : ℕ) (v : View) (ts : List Thread)
    → v.next ≡ none
    → v.own ≡ ts
    → Shows s cpu v
    → (s' : Scheduler) × (run_queue_get_loop 1 s cpu ≡ some ((get_own v ts).0, s'))
      × Shows s' cpu (get_own v ts).1
get_loop-Shows s cpu v [] e f q =
    let empty =
      window-eq-nil (s.local cpu).queue (s.local cpu).head (size (s.local cpu)) (q.own ∙ f) in
    let valid = q.valid in (s, get_loop_nil s cpu (omega arith), q)
get_loop-Shows s cpu v (t ∷ ts) e f q =
    let rq = s.local cpu in
    let (valid, first, rest, nonempty) = advanced-IsValid rq t ts q.valid (q.own ∙ f) in
    let outer = Distinct-of_append v.global (t ∷ ts) (rw f at q.once) in
    let apart = Apart-of_append v.global (t ∷ []) ts outer.apart in
    (
      set_local s cpu (advanced rq),
      rw (← first) (get_loop_cons s cpu nonempty),
      set_local-Queues s cpu (advanced rq) v.next ts v.global valid q.upcoming rest q.global
          q.counted (Distinct-append v.global ts outer.left outer.right.1 apart.1),
    )

without_next :
    (s : Scheduler) (cpu : ℕ) (v : View)
    → Shows s cpu v
    → Shows (set_local s cpu (record (s.local cpu) { next = none })) cpu (record v { next = none })
without_next s cpu v q =
    set_local-Queues s cpu (record (s.local cpu) { next = none }) none v.own v.global
      (record {
        head_small = q.valid.head_small;
        tail_small = q.valid.tail_small;
        fits = q.valid.fits;
      })
      refl q.own q.global q.counted q.once

get_of_next :
    (s : Scheduler) (cpu : ℕ) {nx : Option Thread}
    → (s.local cpu).next ≡ nx
    → run_queue_get s cpu ≡ get_next s cpu nx
unfolding run_queue_get
get_of_next s cpu e = ap (get_next s cpu) e

get-Shows :
    (s : Scheduler) (cpu : ℕ) (v : View) (nx : Option Thread)
    → v.next ≡ nx
    → Shows s cpu v
    → (s' : Scheduler) × (run_queue_get s cpu ≡ some ((get_view v nx).0, s'))
      × Shows s' cpu (get_view v nx).1
get-Shows s cpu v none e q =
    rw (get_of_next s cpu (q.upcoming ∙ e))
      (unfold get_next in get_loop-Shows s cpu v v.own e refl q)
get-Shows s cpu v (some t) e q = rw (get_of_next s cpu (q.upcoming ∙ e)) (
  set_local s cpu (record (s.local cpu) { next = none }),
  (unfold get_next in refl),
  without_next s cpu v q,
)

-- A get ends, and gives what the abstract get gives.
pub run_queue_get-Shows :
    (s : Scheduler) (cpu : ℕ) (v : View)
    → Shows s cpu v
    → (s' : Scheduler) × (run_queue_get s cpu ≡ some ((get_view v v.next).0, s'))
      × Shows s' cpu (get_view v v.next).1
run_queue_get-Shows s cpu v q = get-Shows s cpu v v.next refl q
