-- ===== src/Sync/NotifyList.antt =====
-- kernel/sync/notify_list.c: tickets are uint32_t that wrap, and `waiters` is the list from `head` to
-- `tail`. A call holds the lock, so it is one action.
pub mod Window
pub mod System
pub mod Notified
use pentagon.Prelude.{
  ℕ, ◌-◌, ◌^◌, Bool, true, false, Option, none, some, List, [], ◌∷◌, ◌++◌, ◌==◌, ltb, not,
  if◌then◌else◌, add32, sub32,
}

-- The fields of `waiting_thread_t` that are used here.
pub record Waiter : Type 0 where
  pub thread : ℕ
  pub ticket : ℕ

pub record NotifyList : Type 0 where
  pub wait : ℕ
  pub notify : ℕ
  pub waiters : List Waiter

-- The difference is negative as an int32_t.
unfoldable pub less : ℕ → ℕ → Bool
less a b = not (ltb (sub32 a b) (2 ^ 31))

unfoldable pub notify_list_add : NotifyList → ℕ × NotifyList
notify_list_add l = (l.wait, record l { wait = add32 l.wait 1 })

-- Whether the thread parks, and the list then.
unfoldable pub notify_list_wait : NotifyList → ℕ → ℕ → Bool × NotifyList
unfolding less
notify_list_wait l thread ticket = if less ticket l.notify then (false, l) else (
  true,
  record l { waiters = l.waiters ++ (record { thread = thread; ticket = ticket } ∷ []) },
)

unfoldable pub threads_of : List Waiter → List ℕ
threads_of [] = []
threads_of (w ∷ ws) = w.thread ∷ threads_of ws

-- The threads that are readied, in order.
unfoldable pub notify_list_notify_all : NotifyList → List ℕ × NotifyList
unfolding threads_of
notify_list_notify_all l =
    if l.wait == l.notify
    then ([], l)
    else (threads_of l.waiters, record l { waiters = []; notify = l.wait })

abbrev pub keep : Waiter → Option Waiter × List Waiter → Option Waiter × List Waiter
keep w (found, ws) = (found, w ∷ ws)

-- The scan for the ticket: the waiter that leaves the list, if there is one, and the others.
unfoldable pub unlink_ticket : ℕ → List Waiter → Option Waiter × List Waiter
unlink_ticket ticket [] = (none, [])
unlink_ticket ticket (w ∷ ws) =
    let rest = unlink_ticket ticket ws in if w.ticket == ticket then (some w, ws) else keep w rest

unfoldable pub notify_list_notify_one : NotifyList → Option Waiter × NotifyList
notify_list_notify_one l =
    let (found, ws) = unlink_ticket l.notify l.waiters in
    if l.wait == l.notify
    then (none, l)
    else (found, record l { notify = add32 l.notify 1; waiters = ws })
