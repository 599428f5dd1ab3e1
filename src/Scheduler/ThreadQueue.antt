-- ===== src/Scheduler/ThreadQueue.antt =====
-- kernel/thread/scheduler.c, `thread_queue_t`: a queue of threads linked through `sched_link`.
pub mod Refine
use pentagon.Prelude.{ℕ, Option, none, some, update}

-- A thread is named by its address; NULL is `none`.
abbrev pub Thread : Type 0
Thread = ℕ

-- The field `sched_link` of every thread.
abbrev pub Links : Type 0
Links = Thread → Option Thread

pub record ThreadQueue : Type 0 where
  pub head : Option Thread
  pub tail : Option Thread

-- `p->sched_link = v` for a pointer that may be NULL, tested by the callers.
abbrev pub set_link : Links → Option Thread → Option Thread → Links
set_link l none v = l
set_link l (some t) v = update l t v

-- The new head where the queue was empty: `if (q->tail != NULL) ... else q->head = first`.
abbrev pub head_after : ThreadQueue → Option Thread → Option Thread
head_after q first = elim q.tail [ none ↦ first | some _ ↦ q.head ]

unfoldable pub push_back_all : Links → ThreadQueue → ThreadQueue → Links × ThreadQueue
push_back_all l q q2 = elim q2.tail [
  | none ↦ (l, q)
  | some last ↦ (
    set_link (update l last none) q.tail q2.head,
    record { head = head_after q q2.head; tail = some last },
  )
]

unfoldable pub push_back : Links → ThreadQueue → Thread → Links × ThreadQueue
push_back l q t = (
  set_link (update l t none) q.tail (some t),
  record { head = head_after q (some t); tail = some t },
)

-- The tail is reset when the new head is NULL.
abbrev pub tail_after : Option Thread → Option Thread → Option Thread
tail_after none tail = none
tail_after (some _) tail = tail

unfoldable pub pop : Links → ThreadQueue → Option Thread × ThreadQueue
pop l q = elim q.head [
  | none ↦ (none, q)
  | some t ↦ (some t, record { head = l t; tail = tail_after (l t) q.tail })
]
