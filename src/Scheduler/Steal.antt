-- ===== src/Scheduler/Steal.antt =====
-- kernel/thread/scheduler.c, `run_queue_grab` and `run_queue_steal`: an idle CPU takes half of the
-- threads of another one. The batch that `run_queue_grab` fills is the array of the thief's queue.
pub mod Copy
pub mod Queues
pub mod Refine
use pentagon.Prelude.{
  ℕ, zero, suc, ◌+◌, ◌-◌, ◌/◌, ◌%◌, Bool, true, false, Option, none, some, ltb, ◌==◌, if◌then◌else◌,
  update, add32, sub32, ◌>>=◌,
}
use pentagon.Scheduler.ThreadQueue.{Thread}
use pentagon.Scheduler.RunQueue.{
  LocalRunQueue, Scheduler, run_queue_len, size, set_local, cas_head, attempts,
}

-- `batch[(batchHead + i) % 256] = queue[(h + i) % 256]` for the `n` first `i`.
unfoldable pub copy : (ℕ → Thread) → ℕ → (ℕ → Thread) → ℕ → ℕ → ℕ → Thread
copy q h b bh zero = b
copy q h b bh (suc n) =
    copy q (add32 h 1) (update b (bh % run_queue_len) (q (h % run_queue_len))) (add32 bh 1) n

-- How many threads were taken, the batch, and the queues.
abbrev pub Grab : Type 0
Grab = ℕ × (ℕ → Thread) × Scheduler

-- The compare-exchange of `next` is made against what was just read.
unfoldable pub grab_next : Scheduler → ℕ → (ℕ → Thread) → ℕ → Option Thread → Grab
grab_next s victim b bh none = (0, b, s)
grab_next s victim b bh (some t) = (
  1,
  update b (bh % run_queue_len) t,
  set_local s victim (record (s.local victim) { next = none }),
)

-- With nothing in the array, the thread to run next may be taken.
unfoldable pub grab_empty : Scheduler → ℕ → (ℕ → Thread) → ℕ → Bool → Grab
grab_empty s victim b bh true = grab_next s victim b bh (s.local victim).next
grab_empty s victim b bh false = (0, b, s)

-- `n = t - h; n = n - n / 2`.
abbrev pub upper_half : ℕ → ℕ
upper_half n = n - n / 2

-- One round of the loop, at the number `n` of threads to take; `again` is the next round.
unfoldable pub grab_round : Scheduler → ℕ → (ℕ → Thread) → ℕ → Bool → Option Grab → ℕ → Option Grab
grab_round s victim b bh steal again n =
    let orq = s.local victim in
    let taken : Option Grab = elim (cas_head orq orq.head (add32 orq.head n)) [
      | none ↦ again
      | some rq ↦ some (n, copy orq.queue orq.head b bh n, set_local s victim rq)
    ] in
    if n == 0
    then some (grab_empty s victim b bh steal)
    else (if ltb (run_queue_len / 2) n then again else taken)

unfoldable pub run_queue_grab : ℕ → Scheduler → ℕ → (ℕ → Thread) → ℕ → Bool → Option Grab
run_queue_grab zero s victim b bh steal = none
run_queue_grab (suc f) s victim b bh steal =
    let again = run_queue_grab f s victim b bh steal in
    grab_round s victim b bh steal again (upper_half (size (s.local victim)))

-- The last thread taken is returned; the others stand behind the thief's tail `t` already.
-- `none` is the ASSERT that they fit.
unfoldable pub steal_finish : ℕ → ℕ → Grab → Option (Option Thread × Scheduler)
steal_finish cpu t (zero, b, s) = some (none, s)
steal_finish cpu t (suc n, b, s) =
    let rq : LocalRunQueue = record (s.local cpu) { queue = b } in
    let thread = b (add32 t n % run_queue_len) in
    let queued : LocalRunQueue = record rq { tail = add32 t n } in
    if n == 0
    then some (some thread, set_local s cpu rq)
    else (if ltb (add32 (sub32 t rq.head) n) run_queue_len
        then some (some thread, set_local s cpu queued)
        else none)

unfoldable pub run_queue_steal : Scheduler → ℕ → ℕ → Bool → Option (Option Thread × Scheduler)
run_queue_steal s cpu victim steal =
    let rq = s.local cpu in
    run_queue_grab attempts s victim rq.queue rq.tail steal >>= λ g. steal_finish cpu rq.tail g
