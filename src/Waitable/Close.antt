-- ===== src/Waitable/Close.antt =====
-- kernel/thread/waitable.c, `waitable_close`, and what a thread that parked in `waitable_send` or
-- `waitable_wait` answers when it is woken up.
pub mod Woken
pub mod ReleaseAll
pub mod Closed
use pentagon.Prelude.{
  ℕ, zero, suc, Bool, true, false, not, Option, none, some, List, [], ◌∷◌, ◌++◌, if◌then◌else◌,
  update,
}
use pentagon.Waitable.WaitQueue.{ThreadRef, WaitingRef, Store, WaitQueue, wait_queue_dequeue}
use pentagon.Waitable.Channel.{Waitable, WaitResult, waitable_closed, waitable_success}

-- The thread of an entry is to be readied, without success; it goes in front of `threads`.
abbrev pub fail_waiter : Store → WaitingRef → Option ThreadRef → Store
fail_waiter s wt threads = record s {
  waker = update s.waker (s.thread wt) (some wt);
  success = update s.success wt false;
  sched_link = update s.sched_link (s.thread wt) threads;
}

unfoldable pub release_next :
    (Store → WaitQueue → Option ThreadRef → Store × WaitQueue × Option ThreadRef)
    → Option ThreadRef
    → Option WaitingRef × Store × WaitQueue
    → Store × WaitQueue × Option ThreadRef
release_next again threads (none, s, q) = (s, q, threads)
release_next again threads (some wt, s, q) = again (fail_waiter s wt threads) q (some (s.thread wt))

-- The loop that empties a queue; `g` is fuel for each dequeue, and both fuels are above the length.
unfoldable pub release_all :
    ℕ → ℕ → Store → WaitQueue → Option ThreadRef → Store × WaitQueue × Option ThreadRef
release_all zero g s q threads = (s, q, threads)
release_all (suc f) g s q threads =
    release_next (release_all f g) threads (wait_queue_dequeue g s q)

-- The loop that readies the threads; `scheduler_ready_thread` clears `sched_link` first.
unfoldable pub ready_all : ℕ → Store → Option ThreadRef → List ThreadRef → Store × List ThreadRef
ready_all zero s threads ready = (s, ready)
ready_all (suc f) s none ready = (s, ready)
ready_all (suc f) s (some t) ready =
    ready_all f (record s { sched_link = update s.sched_link t none }) (s.sched_link t)
      (ready ++ (t ∷ []))

unfoldable pub waitable_close : ℕ → Waitable → Waitable
waitable_close f w =
    let (s1, q1, threads1) = release_all f f w.store w.wait_queue none in
    let (s2, q2, threads2) = release_all f f s1 w.send_queue threads1 in
    let (s3, ready) = ready_all f s2 threads2 w.ready in
    if w.closed
    then w
    else record w { store = s3; closed = true; wait_queue = q1; send_queue = q2; ready = ready }

-- The end of `waitable_send` and of `waitable_wait` behind `scheduler_park`.
unfoldable pub send_resumed : Store → WaitingRef → Bool
send_resumed s wt = if not (s.success wt) then false else true

unfoldable pub wait_resumed : Store → WaitingRef → WaitResult
wait_resumed s wt = if s.success wt then waitable_success else waitable_closed
