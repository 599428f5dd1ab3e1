-- ===== src/Thread/FreeThreads.antt =====
-- kernel/thread/thread.c, the free threads of a CPU and of the kernel, linked through `sched_link`.
pub mod Keep
pub mod Get
pub mod Release
use pentagon.Prelude.{
  ℕ, zero, suc, ◌+◌, ◌-◌, ◌<◌, Bool, true, false, not, ◌&&◌, Option, none, some, ltb, is_some,
  if◌then◌else◌, update, Outcome, done, panic, waits,
}
use pentagon.Scheduler.ThreadQueue.{Thread, Links}

-- A `thread_list_t` and the count kept beside it.
pub record ThreadList : Type 0 where
  pub head : Option Thread
  pub count : ℕ

unfoldable pub thread_list_empty : ThreadList → Bool
thread_list_empty q = not (is_some q.head)

unfoldable pub thread_list_push : Links → ThreadList → Thread → Links × ThreadList
thread_list_push l q t = (update l t q.head, record { head = some t; count = q.count + 1 })

unfoldable pub thread_list_pop : Links → ThreadList → Option (Thread × ThreadList)
thread_list_pop l q = elim q.head [
  | none ↦ none
  | some t ↦ some (t, record { head = l t; count = q.count - 1 })
]

-- Both loops between the two lists: at most `n` threads, one by one.
unfoldable pub move_threads : ℕ → Links → ThreadList → ThreadList → Links × ThreadList × ThreadList
unfolding thread_list_push
move_threads zero l from to = (l, from, to)
move_threads (suc n) l from to = elim (thread_list_pop l from) [
  | none ↦ (l, from, to)
  | some (t, from1) ↦ let (l1, to1) = thread_list_push l to t in move_threads n l1 from1 to1
]

pub record FreeThreads : Type 0 where
  pub links : Links
  pub local : ThreadList
  pub global : ThreadList

abbrev pub take_some : FreeThreads → FreeThreads
take_some s =
    let r = move_threads (32 - s.local.count) s.links s.global s.local in
    record { links = r.0; global = r.1; local = r.2 }

abbrev pub take_local : FreeThreads → Option Thread × FreeThreads
take_local s = elim (thread_list_pop s.links s.local) [
  | none ↦ (none, s)
  | some (t, q) ↦ (some t, record s { local = q })
]

-- The fuel counts the rounds of `goto retry`; 2 are enough.
unfoldable pub get_free_thread : ℕ → FreeThreads → Outcome (Option Thread × FreeThreads)
get_free_thread zero s = waits
get_free_thread (suc f) s =
    let rest = get_free_thread f (take_some s) in
    if thread_list_empty s.local && not (thread_list_empty s.global)
    then rest
    else done (take_local s)

abbrev pub give_some : FreeThreads → FreeThreads
give_some s =
    let r = move_threads (s.local.count - 31) s.links s.local s.global in
    record { links = r.0; local = r.1; global = r.2 }

-- `release_thread` once the last reference is gone; `dead` is the ASSERT on the status.
unfoldable pub release_thread : Bool → FreeThreads → Thread → Option FreeThreads
release_thread dead s t =
    let (l, q) = thread_list_push s.links s.local t in
    let s1 = record s { links = l; local = q } in
    if dead then some (if ltb q.count 64 then s1 else give_some s1) else none
