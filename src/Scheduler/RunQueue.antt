-- ===== src/Scheduler/RunQueue.antt =====
-- kernel/thread/scheduler.c, the local and global run queues: `run_queue_put`, `run_queue_get`,
-- `run_queue_grab`, `run_queue_steal`, `global_run_queue_get` and their helpers.
-- Each function runs here without another CPU between its steps. A compare-exchange is still a test
-- against the word in memory, and a loop that retries one takes fuel: `none` means that the fuel ran
-- out or that an ASSERT stopped the kernel.
pub mod Window
pub mod Invariant
pub mod PutPaths
pub mod Put
pub mod Take
use pentagon.Prelude.{
  ℕ, zero, suc, ◌+◌, ◌-◌, ◌/◌, ◌%◌, Bool, true, false, ◌&&◌, Option, none, some, List, [], ◌∷◌,
  ◌++◌, ltb, ◌==◌, if◌then◌else◌, is_some, update, add32, sub32, first?, last?, ◌>>=◌, min,
}
use pentagon.Scheduler.ThreadQueue
use pentagon.Scheduler.ThreadQueue.{Thread, Links, ThreadQueue}

abbrev pub run_queue_len : ℕ
run_queue_len = 256

-- `local_run_queue_t`; `head` and `tail` are uint32_t, and an index is always taken modulo 256.
pub record LocalRunQueue : Type 0 where
  pub head : ℕ
  pub tail : ℕ
  pub queue : ℕ → Thread
  pub next : Option Thread

-- The run queues of all CPUs, the global one with its size, and the links of the threads.
pub record Scheduler : Type 0 where
  pub links : Links
  pub global : ThreadQueue
  pub global_size : ℕ
  pub cpu_count : ℕ
  pub local : ℕ → LocalRunQueue

abbrev pub set_local : Scheduler → ℕ → LocalRunQueue → Scheduler
set_local s cpu rq = record s { local = update s.local cpu rq }

-- The number of threads in the array: `tail - head` on uint32_t.
abbrev pub size : LocalRunQueue → ℕ
size rq = sub32 rq.tail rq.head

-- `queue[(h + i) % RUN_QUEUE_LEN]` for the `n` first `i`.
unfoldable pub window : (ℕ → Thread) → ℕ → ℕ → List Thread
window q h zero = []
window q h (suc n) = q (h % run_queue_len) ∷ window q (add32 h 1) n

-- The compare-exchange of `head`.
abbrev pub cas_head : LocalRunQueue → ℕ → ℕ → Option LocalRunQueue
cas_head rq old new = if rq.head == old then some (record rq { head = new }) else none

-- `batch[i]->sched_link = batch[i + 1]`.
unfoldable pub link_batch : Links → List Thread → Links
link_batch l [] = l
link_batch l (t ∷ []) = l
link_batch l (t ∷ u ∷ ts) = link_batch (update l t (some u)) (u ∷ ts)

unfoldable pub global_run_queue_put_batch : Scheduler → ThreadQueue → ℕ → Scheduler
global_run_queue_put_batch s batch n =
    let (l, q) = ThreadQueue.push_back_all s.links s.global batch in
    record s { links = l; global = q; global_size = s.global_size + n }

unfoldable pub global_run_queue_put : Scheduler → Thread → Scheduler
global_run_queue_put s t =
    let (l, q) = ThreadQueue.push_back s.links s.global t in
    record s { links = l; global = q; global_size = s.global_size + 1 }

-- The batch, linked up and put on the global queue.
unfoldable pub put_linked : Scheduler → List Thread → ℕ → Scheduler
put_linked s batch n =
    global_run_queue_put_batch (record s { links = link_batch s.links batch })
      (record { head = first? batch; tail = last? batch }) n

-- Half of the local queue goes to the global one, with the thread behind it.
unfoldable pub run_queue_put_slow : Scheduler → ℕ → Thread → ℕ → ℕ → Bool × Scheduler
run_queue_put_slow s cpu t head tail =
    let rq = s.local cpu in
    let n = sub32 tail head / 2 in
    let batch = window rq.queue head n ++ (t ∷ []) in
    elim (cas_head rq head (add32 head n)) [
      | none ↦ (false, s)
      | some rq' ↦ (true, put_linked (set_local s cpu rq') batch (n + 1))
    ]

-- The fast path: the slot behind the last thread, then the new tail.
abbrev pub store : LocalRunQueue → Thread → LocalRunQueue
store rq t = record rq {
  tail = add32 rq.tail 1;
  queue = update rq.queue (rq.tail % run_queue_len) t;
}

-- The `do ... while (true)` of `run_queue_put`.
unfoldable pub run_queue_put_loop : ℕ → Scheduler → ℕ → Thread → Option Scheduler
run_queue_put_loop zero s cpu t = none
run_queue_put_loop (suc f) s cpu t =
    let rq = s.local cpu in
    let slow = run_queue_put_slow s cpu t rq.head rq.tail in
    let again = run_queue_put_loop f slow.1 cpu t in
    if ltb (size rq) run_queue_len
    then some (set_local s cpu (store rq t))
    else (if slow.0 then some slow.1 else again)

-- How often a loop is entered: once, while no other CPU comes between.
abbrev pub attempts : ℕ
attempts = 1

-- What `next` held goes on to the regular queue.
unfoldable pub put_kicked : Scheduler → ℕ → Option Thread → Option Scheduler
put_kicked s cpu none = some s
put_kicked s cpu (some old) = run_queue_put_loop attempts s cpu old

unfoldable pub run_queue_put : Scheduler → ℕ → Thread → Bool → Option Scheduler
run_queue_put s cpu t false = run_queue_put_loop attempts s cpu t
run_queue_put s cpu t true =
    put_kicked (set_local s cpu (record (s.local cpu) { next = some t })) cpu (s.local cpu).next

-- The `while (true)` of `run_queue_get`.
unfoldable pub run_queue_get_loop : ℕ → Scheduler → ℕ → Option (Option Thread × Scheduler)
run_queue_get_loop zero s cpu = none
run_queue_get_loop (suc f) s cpu =
    let rq = s.local cpu in
    let again = run_queue_get_loop f s cpu in
    let taken : Option (Option Thread × Scheduler) = elim (cas_head rq rq.head (add32 rq.head 1)) [
      | none ↦ again
      | some rq' ↦ some (some (rq.queue (rq.head % run_queue_len)), set_local s cpu rq')
    ] in
    if rq.tail == rq.head then some (none, s) else taken

-- The thread to run next is taken by a compare-exchange of `next` against what was just read.
unfoldable pub get_next : Scheduler → ℕ → Option Thread → Option (Option Thread × Scheduler)
get_next s cpu (some t) = some (some t, set_local s cpu (record (s.local cpu) { next = none }))
get_next s cpu none = run_queue_get_loop attempts s cpu

unfoldable pub run_queue_get : Scheduler → ℕ → Option (Option Thread × Scheduler)
run_queue_get s cpu = get_next s cpu (s.local cpu).next

unfoldable pub run_queue_empty : Scheduler → ℕ → Bool
run_queue_empty s cpu =
    let rq = s.local cpu in (rq.head == rq.tail) && (if is_some rq.next then false else true)
