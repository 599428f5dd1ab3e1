-- ===== src/Scheduler/Suspend.antt =====
-- kernel/thread/scheduler.c, the suspension of a thread, and `cas_thread_state` of
-- kernel/thread/thread.c. One step is one atomic action on the status of the thread.
pub mod Owner
pub mod Guard
mod Tests
use pentagon.Prelude.{
  ℕ, Bool, true, false, ◌&&◌, Option, none, some, ◌==◌, if◌then◌else◌, update, Outcome, done, panic,
  waits, or_panic, ◌≡◌,
}

pub data State : Type 0 where
  idle runnable running waiting preempted dead : State

-- `thread_status_t`: a state, with the bit THREAD_SUSPEND or without.
pub data ThreadStatus : Type 0 where
  plain suspend : State → ThreadStatus

-- The fields of `thread_t` that matter here.
pub record Suspendable : Type 0 where
  pub status : ThreadStatus
  pub preempt_stop : Bool

abbrev pub code : State → ℕ
code idle = 0
code runnable = 1
code running = 2
code waiting = 3
code preempted = 4
code dead = 5

abbrev pub same_status : ThreadStatus → ThreadStatus → Bool
same_status (plain a) (plain b) = code a == code b
same_status (suspend a) (suspend b) = code a == code b
same_status _ _ = false

abbrev pub with_suspend : ThreadStatus → ThreadStatus
with_suspend (plain a) = suspend a
with_suspend (suspend a) = suspend a

abbrev pub without_suspend : ThreadStatus → ThreadStatus
without_suspend (plain a) = plain a
without_suspend (suspend a) = plain a

-- A compare-exchange of the status that succeeds, or `none`.
abbrev pub compare_exchange : Suspendable → ThreadStatus → ThreadStatus → Option Suspendable
compare_exchange t old new =
    if same_status t.status old then some (record t { status = new }) else none

-- After a failed exchange: a thread to be woken must not be runnable already.
abbrev pub cas_failed : State → ThreadStatus → Outcome Suspendable
cas_failed waiting (plain runnable) = panic
cas_failed _ _ = waits

abbrev pub or_failed : Option Suspendable → State → ThreadStatus → Outcome Suspendable
or_failed none old now = cas_failed old now
or_failed (some t) old now = done t

-- One round of `cas_thread_state`, which spins while it `waits`.
unfoldable pub cas_thread_state : Suspendable → State → State → Outcome Suspendable
cas_thread_state t old new =
    if code old == code new
    then panic
    else or_failed (compare_exchange t (plain old) (plain new)) old t.status

unfoldable pub cas_from_preempted : Suspendable → Option Suspendable
cas_from_preempted t = compare_exchange t (plain preempted) (plain waiting)

unfoldable pub cas_to_suspend :
    Suspendable → ThreadStatus → ThreadStatus → Outcome (Option Suspendable)
cas_to_suspend t old new =
    if same_status new (with_suspend old) then done (compare_exchange t old new) else panic

unfoldable pub cas_from_suspend : Suspendable → ThreadStatus → ThreadStatus → Outcome Suspendable
cas_from_suspend t old new =
    if same_status new (without_suspend old)
    then or_panic (compare_exchange t old new) done
    else panic

-- Where a caller of `scheduler_suspend_thread` and then `scheduler_resume_thread` stands, between two
-- atomic actions. The Bool is `stopped`: the thread was preempted and is to be readied later.
pub data Phase : Type 0 where
  outside gone : Phase
  looping : Bool → Phase
  loaded : Bool → ThreadStatus → Phase
  suspending : Bool → State → Phase
  requested : Bool → Phase
  owns : Bool → Phase
  resuming : Bool → ThreadStatus → Phase
  readying : Phase

abbrev pub suspended : Bool → Option Suspendable → Suspendable → Phase × Suspendable
suspended stopped none t = (looping stopped, t)
suspended stopped (some t1) t = (owns stopped, record t1 { preempt_stop = false })

-- The exchange of a runnable or waiting thread.
unfoldable pub suspend_at : Bool → State → Suspendable → Outcome (Phase × Suspendable)
unfolding cas_to_suspend
suspend_at stopped s t = elim (cas_to_suspend t (plain s) (suspend s)) [
  | done o ↦ done (suspended stopped o t)
  | panic ↦ panic
  | waits ↦ waits
]

abbrev pub claimed : Bool → Option Suspendable → Suspendable → Phase × Suspendable
claimed stopped none t = (looping stopped, t)
claimed stopped (some t1) t = (suspending true waiting, record t1 { preempt_stop = false })

abbrev pub request : Bool → Option Suspendable → Suspendable → Phase × Suspendable
request stopped none t = (looping stopped, t)
request stopped (some t1) t = (requested stopped, record t1 { preempt_stop = true })

-- A round of the loop of `scheduler_suspend_thread` that has loaded this status.
unfoldable pub suspend_round : Bool → ThreadStatus → Suspendable → Outcome (Phase × Suspendable)
suspend_round stopped (suspend s) t = done (looping stopped, t)
suspend_round stopped (plain idle) t = panic
suspend_round stopped (plain dead) t = done (gone, t)
suspend_round stopped (plain preempted) t = done (claimed stopped (cas_from_preempted t) t)
suspend_round stopped (plain runnable) t = suspend_at stopped runnable t
suspend_round stopped (plain waiting) t = suspend_at stopped waiting t
suspend_round stopped (plain running) t =
    if t.preempt_stop
    then done (looping stopped, t)
    else elim (cas_to_suspend t (plain running) (suspend running)) [
      | done o ↦ done (request stopped o t)
      | panic ↦ panic
      | waits ↦ waits
    ]

abbrev pub leave : Phase → Outcome Suspendable → Outcome (Phase × Suspendable)
leave p (done t) = done (p, t)
leave p panic = panic
leave p waits = waits

-- The next action of the caller; the last one is of `scheduler_ready_thread`, its ASSERT included.
unfoldable pub suspend_next : Phase → Suspendable → Outcome (Phase × Suspendable)
suspend_next outside t = done (looping false, t)
suspend_next gone t = done (outside, t)
suspend_next (looping stopped) t = done (loaded stopped t.status, t)
suspend_next (loaded stopped s) t = suspend_round stopped s t
suspend_next (suspending stopped s) t = suspend_at stopped s t
suspend_next (requested stopped) t =
    leave (looping stopped) (cas_from_suspend t (suspend running) (plain running))
suspend_next (owns stopped) t = done (resuming stopped t.status, t)
suspend_next (resuming stopped s) t =
    leave (if stopped then readying else outside) (cas_from_suspend t s (without_suspend s))
suspend_next readying t =
    if same_status (without_suspend t.status) (plain waiting)
    then leave outside (cas_thread_state t waiting runnable)
    else panic

-- A thread and the callers that suspend it.
pub record World : Type 0 where
  pub thread : Suspendable
  pub phase : ℕ → Phase

-- A caller goes on, or the scheduler changes the state of the thread.
pub data Step (w : World) : World → Type 0 where
  act :
      (i : ℕ) (p : Phase) (t : Suspendable)
      → suspend_next (w.phase i) w.thread ≡ done (p, t)
      → Step w (record { thread = t; phase = update w.phase i p })
  moves :
      (old new : State) (t : Suspendable)
      → cas_thread_state w.thread old new ≡ done t
      → Step w (record w { thread = t })

abbrev pub nobody : World
nobody = record {
  thread = record { status = plain idle; preempt_stop = false };
  phase = λ i. outside;
}

pub data Reach : World → Type 0 where
  begin : Reach nobody
  then_step : {w v : World} → Reach w → Step w v → Reach v
