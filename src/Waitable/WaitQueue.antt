-- ===== src/Waitable/WaitQueue.antt =====
-- kernel/thread/waitable.c, `wait_queue_t`: a doubly linked list of `waiting_thread_t`. Each field of
-- these and of `thread_t` that the code uses is an array over addresses; NULL is `none`.
pub mod Segments
pub mod Refine
pub mod Dequeue
pub mod Remove
use pentagon.Prelude.{
  ℕ, zero, suc, Bool, true, false, ◌||◌, not, Option, none, some, ◌==◌, if◌then◌else◌, update,
}

abbrev pub ThreadRef : Type 0
ThreadRef = ℕ

abbrev pub WaitingRef : Type 0
WaitingRef = ℕ

abbrev pub Links : Type 0
Links = WaitingRef → Option WaitingRef

pub record Store : Type 0 where
  pub thread : WaitingRef → ThreadRef
  pub next : Links
  pub prev : Links
  pub is_select : WaitingRef → Bool
  pub success : WaitingRef → Bool
  pub select_done : ThreadRef → ℕ
  pub waker : ThreadRef → Option WaitingRef
  pub sched_link : ThreadRef → Option ThreadRef

pub record WaitQueue : Type 0 where
  pub first : Option WaitingRef
  pub last : Option WaitingRef

abbrev pub no_queue : WaitQueue
no_queue = record { first = none; last = none }

unfoldable pub enqueue_behind :
    Store → WaitQueue → WaitingRef → Option WaitingRef → Store × WaitQueue
enqueue_behind s q wt none = (
  record s { next = update s.next wt none; prev = update s.prev wt none },
  record { first = some wt; last = some wt },
)
enqueue_behind s q wt (some x) = (
  record s { next = update (update s.next wt none) x (some wt); prev = update s.prev wt (some x) },
  record q { last = some wt },
)

unfoldable pub wait_queue_enqueue : Store → WaitQueue → WaitingRef → Store × WaitQueue
wait_queue_enqueue s q wt = enqueue_behind s q wt q.last

-- The first entry leaves the list; `y` is the one behind it.
unfoldable pub unlink_first : Store → WaitQueue → WaitingRef → Option WaitingRef → Store × WaitQueue
unlink_first s q wt none = (s, no_queue)
unlink_first s q wt (some y) = (
  record s { prev = update s.prev y none; next = update s.next wt none },
  record q { first = some y },
)

-- The compare-exchange of `select_done` succeeds: this entry is the one that wakes its thread.
abbrev pub wins : Store → WaitingRef → Bool
wins s wt = not (s.is_select wt) || (s.select_done (s.thread wt) == 0)

-- What the winning exchange writes.
abbrev pub claim_if : Store → WaitingRef → Bool → Store
claim_if s wt false = s
claim_if s wt true = record s { select_done = update s.select_done (s.thread wt) 1 }

abbrev pub claim : Store → WaitingRef → Store
claim s wt = claim_if s wt (s.is_select wt)

-- One round of the loop for the first entry; `again` is the rest of the loop.
unfoldable pub dequeue_round :
    Store
    → WaitQueue
    → Option WaitingRef
    → (Store → WaitQueue → Option WaitingRef × Store × WaitQueue)
    → Option WaitingRef × Store × WaitQueue
dequeue_round s q none again = (none, s, q)
dequeue_round s q (some wt) again =
    let (s1, q1) = unlink_first s q wt (s.next wt) in
    if wins s1 wt then (some wt, claim s1 wt, q1) else again s1 q1

-- The `while (true)` of `wait_queue_dequeue`; each round removes an entry, so fuel above the length
-- of the queue is enough.
unfoldable pub wait_queue_dequeue : ℕ → Store → WaitQueue → Option WaitingRef × Store × WaitQueue
wait_queue_dequeue zero s q = (none, s, q)
wait_queue_dequeue (suc f) s q = dequeue_round s q q.first (wait_queue_dequeue f)

unfoldable pub points_at : Option WaitingRef → WaitingRef → Bool
points_at none wt = false
points_at (some x) wt = x == wt

-- The four cases of `wait_queue_dequeue_wt`, by the neighbours `x` and `y`.
unfoldable pub unlink :
    Store → WaitQueue → WaitingRef → Option WaitingRef → Option WaitingRef → Store × WaitQueue
unlink s q wt (some x) (some y) = (
  record s {
    next = update (update s.next x (some y)) wt none;
    prev = update (update s.prev y (some x)) wt none;
  },
  q,
)
unlink s q wt (some x) none = (
  record s { next = update s.next x none; prev = update s.prev wt none },
  record q { last = some x },
)
unlink s q wt none (some y) = (
  record s { prev = update s.prev y none; next = update s.next wt none },
  record q { first = some y },
)
unlink s q wt none none = (s, if points_at q.first wt then no_queue else q)

unfoldable pub wait_queue_dequeue_wt : Store → WaitQueue → WaitingRef → Store × WaitQueue
wait_queue_dequeue_wt s q wt = unlink s q wt (s.prev wt) (s.next wt)
