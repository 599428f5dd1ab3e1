-- ===== src/Sync/Semaphore.antt =====
-- kernel/sync/semaphore.c. Here: the queue of the waiters, linked through `wait_link`, in whose first
-- entry `wait_tail` leads to the last one, NULL if there is no other. NULL is `none`.
pub mod Queue
pub mod System
pub mod Wakeup
use pentagon.Prelude.{
  is_some, ℕ, Bool, true, false, Option, none, some, ◌==◌, if◌then◌else◌, update,
}

abbrev pub WaitingRef : Type 0
WaitingRef = ℕ

-- The fields of `waiting_thread_t` that the queue uses, as arrays over addresses.
pub record Links : Type 0 where
  pub wait_link : WaitingRef → Option WaitingRef
  pub wait_tail : WaitingRef → Option WaitingRef
  pub ticket : WaitingRef → ℕ

abbrev pub set_link : Links → WaitingRef → Option WaitingRef → Links
set_link l t x = record l { wait_link = update l.wait_link t x }

abbrev pub set_tail : Links → WaitingRef → Option WaitingRef → Links
set_tail l t x = record l { wait_tail = update l.wait_tail t x }

abbrev pub set_ticket : Links → WaitingRef → ℕ → Links
set_ticket l t x = record l { ticket = update l.ticket t x }

abbrev pub or_else : Option WaitingRef → WaitingRef → WaitingRef
or_else none t = t
or_else (some x) t = x

-- `wt` takes the place of the first entry `t`.
unfoldable pub queue_front : Links → WaitingRef → WaitingRef → Links
queue_front l wt t =
    let l1 = set_link (set_ticket l wt (l.ticket t)) wt (some t) in
    set_tail (set_tail l1 wt (some (or_else (l1.wait_tail t) t))) t none

-- `wt` goes to the end of the list of `t`.
unfoldable pub queue_back : Links → WaitingRef → WaitingRef → Links
queue_back l wt t =
    let l1 = set_link l (or_else (l.wait_tail t) t) (some wt) in
    set_link (set_tail l1 t (some wt)) wt none

-- The new links and the new `waiters`.
unfoldable pub semaphore_queue :
    Links → Option WaitingRef → WaitingRef → Bool → Links × Option WaitingRef
semaphore_queue l none wt lifo = (l, some wt)
semaphore_queue l (some t) wt lifo =
    if lifo then (queue_front l wt t, some wt) else (queue_back l wt t, some t)

-- The first entry `wt` is taken out; `next` is its `wait_link`.
unfoldable pub dequeue_next : Links → WaitingRef → Option WaitingRef → Links × Option WaitingRef
dequeue_next l wt none = (set_ticket l wt 0, none)
dequeue_next l wt (some t) =
    let l1 = set_ticket l t (l.ticket wt) in
    let l2 = set_tail l1 t (if is_some (l1.wait_link t) then l1.wait_tail wt else none) in
    (set_ticket (set_tail (set_link l2 wt none) wt none) wt 0, some t)

unfoldable pub semaphore_dequeue :
    Links → Option WaitingRef → Option WaitingRef × Links × Option WaitingRef
semaphore_dequeue l none = (none, l, none)
semaphore_dequeue l (some wt) = let (l', w) = dequeue_next l wt (l.wait_link wt) in (some wt, l', w)
