-- ===== src/Scheduler/RunQueue/Put.antt =====
-- `run_queue_put` as a whole, with and without the request to run next.
use pentagon.Prelude.{ℕ, ◌≡◌, refl, Bool, true, false, Option, none, some, List, ◌++◌, NotIn}
use pentagon.Scheduler.ThreadQueue.{Thread}
use pentagon.Scheduler.RunQueue.{Scheduler, run_queue_put, put_kicked, set_local}
use pentagon.Scheduler.RunQueue.Invariant.{Queues, set_local-Queues}
use pentagon.Scheduler.RunQueue.PutPaths.{after_put, put_loop-Queues}

-- The queues of a CPU: the thread to run next, the local list, the global list.
pub record View : Type 0 where
  pub next : Option Thread
  pub own : List Thread
  pub global : List Thread

abbrev pub Shows : Scheduler → ℕ → View → Type 0
Shows s cpu v = Queues s cpu v.next v.own v.global

-- The thread that a put moves into the lists: the given one, or the one that it displaces.
abbrev pub displaced : Thread → Bool → Option Thread → Option Thread
displaced t false nx = some t
displaced t true nx = nx

-- A thread at the end of the lists of a view.
abbrev pub append_view : Thread → View → View
append_view t v = record v {
  own = (after_put t v.own v.global).0;
  global = (after_put t v.own v.global).1;
}

abbrev pub next_view : Thread → View → Option Thread → View
next_view t v none = record v { next = some t }
next_view t v (some u) = append_view u (record v { next = some t })

abbrev pub put_view : Thread → Bool → View → View
put_view t false v = append_view t v
put_view t true v = next_view t v v.next

abbrev pub Fresh : Option Thread → List Thread → Type 0
Fresh none ts = Unit
Fresh (some t) ts = NotIn t ts

with_next :
    (s : Scheduler) (cpu : ℕ) (t : Thread) (v : View)
    → Shows s cpu v
    → Shows
        (set_local s cpu (record (s.local cpu) { next = some t }))
        cpu
        (record v { next = some t })
with_next s cpu t v q =
    set_local-Queues s cpu (record (s.local cpu) { next = some t }) (some t) v.own v.global
      (record {
        head_small = q.valid.head_small;
        tail_small = q.valid.tail_small;
        fits = q.valid.fits;
      })
      refl q.own q.global q.counted q.once

put_next-Shows :
    (s : Scheduler) (cpu : ℕ) (t : Thread) (v : View) (nx : Option Thread)
    → v.next ≡ nx
    → Shows s cpu v
    → Fresh nx (v.global ++ v.own)
    → (s' : Scheduler) × (run_queue_put s cpu t true ≡ some s') × Shows s' cpu (next_view t v nx)
put_next-Shows s cpu t v none e q f = (
  set_local s cpu (record (s.local cpu) { next = some t }),
  (unfold run_queue_put put_kicked in rw (q.upcoming, e)),
  with_next s cpu t v q,
)
put_next-Shows s cpu t v (some u) e q f =
    unfold run_queue_put put_kicked in
    rw (q.upcoming, e) (put_loop-Queues 0 _ cpu u (some t) v.own v.global (with_next s cpu t v q) f)

-- A put ends, and the queues then show what the abstract put gives.
pub run_queue_put-Shows :
    (s : Scheduler) (cpu : ℕ) (t : Thread) (next : Bool) (v : View)
    → Shows s cpu v
    → Fresh (displaced t next v.next) (v.global ++ v.own)
    → (s' : Scheduler) × (run_queue_put s cpu t next ≡ some s') × Shows s' cpu (put_view t next v)
run_queue_put-Shows s cpu t false v q f =
    unfold run_queue_put in put_loop-Queues 0 s cpu t v.next v.own v.global q f
run_queue_put-Shows s cpu t true v q f = put_next-Shows s cpu t v v.next refl q f
