-- ===== src/Sync/Semaphore/System.antt =====
-- kernel/sync/semaphore.c: any number of threads in `semaphore_acquire` and `semaphore_release`, one
-- atomic action at a time. An action is an atomic instruction, or what happens with the lock held.
-- The waiters are a list (the queue module shows that the links implement it).
use pentagon.Prelude.{
  ℕ, ◌+◌, ◌-◌, ◌^◌, ◌<◌, ◌≡◌, Bool, true, false, ◌&&◌, List, [], ◌∷◌, ◌==◌, if◌then◌else◌, length,
  add32, sub32,
}
use pentagon.Sync.Semaphore.{WaitingRef}
use pentagon.Sync.Semaphore.Queue.{joined}

-- The lock: free, or held by a thread in `semaphore_acquire` that has raised `nwait`. The other
-- critical sections are one action each.
pub data Holder : Type 0 where
  free entering : Holder

-- `semaphore_t`, and how many threads stand between two actions: `added` have raised the value in
-- `semaphore_release`, `wanting` saw a waiter and want the lock, `dequeued` have a waiter in hand,
-- and `woken` waiters are ready to try again. `given` and `taken` count permits.
pub record Semaphore : Type 0 where
  pub value : ℕ
  pub nwait : ℕ
  pub waiters : List WaitingRef
  pub holder : Holder
  pub added : ℕ
  pub wanting : ℕ
  pub dequeued : ℕ
  pub woken : ℕ
  pub given : ℕ
  pub taken : ℕ

unfoldable pub semaphore_can_acquire : Semaphore → Bool × Semaphore
semaphore_can_acquire s =
    if s.value == 0
    then (false, s)
    else (true, record s { value = sub32 s.value 1; taken = s.taken + 1 })

unfoldable pub announce : Semaphore → Semaphore
announce s = record s { nwait = add32 s.nwait 1; holder = entering }

unfoldable pub check_or_park : WaitingRef → Bool → Semaphore → Semaphore
unfolding semaphore_can_acquire
check_or_park wt lifo s =
    let (ok, s1) = semaphore_can_acquire s in
    if ok
    then record s1 { nwait = sub32 s1.nwait 1; holder = free }
    else record s { waiters = joined lifo wt s.waiters; holder = free }

unfoldable pub add_permit : Semaphore → Semaphore
add_permit s = record s { value = add32 s.value 1; added = s.added + 1; given = s.given + 1 }

unfoldable pub look_for_waiters : Semaphore → Semaphore
look_for_waiters s =
    if s.nwait == 0
    then record s { added = s.added - 1 }
    else record s { added = s.added - 1; wanting = s.wanting + 1 }

unfoldable pub take_from : List WaitingRef → Semaphore → Semaphore
take_from [] s = record s { wanting = s.wanting - 1 }
take_from (w ∷ ws) s = record s {
  wanting = s.wanting - 1;
  nwait = sub32 s.nwait 1;
  waiters = ws;
  dequeued = s.dequeued + 1;
}

unfoldable pub take_waiter : Semaphore → Semaphore
take_waiter s = if s.nwait == 0 then record s { wanting = s.wanting - 1 } else take_from s.waiters s

-- With `handoff` the permit is taken for the waiter, which then does not try again.
unfoldable pub ready_waiter : Bool → Semaphore → Semaphore
unfolding semaphore_can_acquire
ready_waiter handoff s =
    let (ok, s1) = semaphore_can_acquire s in
    if handoff && ok
    then record s1 { dequeued = s.dequeued - 1 }
    else record s { dequeued = s.dequeued - 1; woken = s.woken + 1 }

unfoldable pub try_again : Semaphore → Semaphore
unfolding semaphore_can_acquire
try_again s = record (semaphore_can_acquire s).1 { woken = s.woken - 1 }

-- There are fewer than 2 ^ 32 threads, so a thread that announces itself does not make `nwait` wrap.
pub data Step (s : Semaphore) : Semaphore → Type 0 where
  try_once : Step s (semaphore_can_acquire s).1
  enter : s.holder ≡ free → length s.waiters + 1 < 2 ^ 32 → Step s (announce s)
  settle : (wt : WaitingRef) (lifo : Bool) → s.holder ≡ entering → Step s (check_or_park wt lifo s)
  release : Step s (add_permit s)
  look : 0 < s.added → Step s (look_for_waiters s)
  dequeue : 0 < s.wanting → s.holder ≡ free → Step s (take_waiter s)
  ready : (handoff : Bool) → 0 < s.dequeued → Step s (ready_waiter handoff s)
  retry : 0 < s.woken → Step s (try_again s)

abbrev pub start : ℕ → Semaphore
start value = record {
  value = value;
  nwait = 0;
  waiters = [];
  holder = free;
  added = 0;
  wanting = 0;
  dequeued = 0;
  woken = 0;
  given = 0;
  taken = 0;
}

pub data Reach (value : ℕ) : Semaphore → Type 0 where
  begin : Reach value (start value)
  then_step : {s t : Semaphore} → Reach value s → Step s t → Reach value t
