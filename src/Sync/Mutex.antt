-- ===== src/Sync/Mutex.antt =====
-- kernel/sync/mutex.c: any number of threads that lock, try to lock and unlock, one atomic action at a
-- time. A load and the compare-exchange that it leads to are one action, since an exchange that fails
-- changes nothing. The semaphore is its number of permits.
pub mod Exclusion
mod Tests
use pentagon.Prelude.{
  ℕ, ◌+◌, ◌-◌, ◌<◌, ◌≡◌, Bool, true, false, not, ◌&&◌, ◌||◌, Option, none, some, ◌==◌,
  if◌then◌else◌, Outcome, done, panic, waits,
}

-- The word `state` by its bits MUTEX_LOCKED, MUTEX_WOKEN, MUTEX_STARVING and the count above them, and
-- how many threads stand where: `holders` have the mutex; `awake` are in the loop of
-- `mutex_lock_slow` with `awoke` set; `sleepers` are in `semaphore_acquire`; `acquired` have returned
-- from it; `handing` saw MUTEX_STARVING then, and `leaves` is whether that thread ends that mode;
-- `unlocking` are in the loop of `mutex_unlock_slow`; `releasing` are to give a permit.
pub record Mutex : Type 0 where
  pub locked : Bool
  pub woken : Bool
  pub starving : Bool
  pub waiters : ℕ
  pub permits : ℕ
  pub holders : ℕ
  pub awake : ℕ
  pub sleepers : ℕ
  pub acquired : ℕ
  pub handing : ℕ
  pub leaves : Bool
  pub unlocking : ℕ
  pub releasing : ℕ

unfoldable pub mutex_lock_fast : Mutex → Mutex
mutex_lock_fast m =
    if m.locked || m.woken || m.starving || not (m.waiters == 0)
    then m
    else record m { locked = true; holders = m.holders + 1 }

unfoldable pub mutex_try_lock : Mutex → Mutex
mutex_try_lock m =
    if m.locked || m.starving then m else record m { locked = true; holders = m.holders + 1 }

-- A spinning thread sets MUTEX_WOKEN.
unfoldable pub spin : Mutex → Mutex
spin m =
    if m.locked && not m.starving && not m.woken && not (m.waiters == 0)
    then record m { woken = true; awake = m.awake + 1 }
    else m

-- The exchange in the loop of `mutex_lock_slow`; `late` is its local `starving`. The thread has the
-- mutex then, or sleeps.
unfoldable pub lock_attempt : Bool → Bool → Mutex → Outcome Mutex
lock_attempt awoke late m =
    let woken = if awoke then false else m.woken in
    let awake = if awoke then m.awake - 1 else m.awake in
    if awoke && not m.woken
    then panic
    else if m.locked || m.starving
    then done (record m {
      locked = if m.starving then m.locked else true;
      woken = woken;
      starving = m.starving || late && m.locked;
      waiters = m.waiters + 1;
      awake = awake;
      sleepers = m.sleepers + 1;
    })
    else done (record m { locked = true; woken = woken; awake = awake; holders = m.holders + 1 })

-- `semaphore_acquire` returns.
abbrev pub acquire : Mutex → Mutex
acquire m = record m {
  permits = m.permits - 1;
  sleepers = m.sleepers - 1;
  acquired = m.acquired + 1;
}

-- The load after that; `late` is the local `starving` as the clock has it.
unfoldable pub after_sleep : Bool → Mutex → Outcome Mutex
after_sleep late m =
    if not m.starving
    then done (record m { acquired = m.acquired - 1; awake = m.awake + 1 })
    else if m.locked || m.woken || m.waiters == 0
    then panic
    else done (record m {
      acquired = m.acquired - 1;
      handing = m.handing + 1;
      leaves = not late || m.waiters == 1;
    })

-- `atomic_fetch_add(&mutex->state, delta)`; where the sum would carry from one field to another, it
-- stands for `panic`.
unfoldable pub take_over : Mutex → Outcome Mutex
take_over m =
    if m.locked || m.waiters == 0 || m.leaves && not m.starving
    then panic
    else done (record m {
      locked = true;
      starving = if m.leaves then false else m.starving;
      waiters = m.waiters - 1;
      handing = m.handing - 1;
      holders = m.holders + 1;
    })

-- The subtraction of `mutex_unlock`, and which path follows.
unfoldable pub mutex_unlock : Mutex → Outcome Mutex
mutex_unlock m =
    let n = record m { locked = false; holders = m.holders - 1 } in
    if not m.locked
    then panic
    else if m.starving
    then done (record n { releasing = m.releasing + 1 })
    else if m.woken || not (m.waiters == 0)
    then done (record n { unlocking = m.unlocking + 1 })
    else done n

-- A round of `mutex_unlock_slow`.
unfoldable pub unlock_attempt : Mutex → Mutex
unlock_attempt m =
    let n = record m { unlocking = m.unlocking - 1 } in
    if m.waiters == 0 || m.locked || m.woken || m.starving
    then n
    else record n { woken = true; waiters = m.waiters - 1; releasing = m.releasing + 1 }

-- The round returns by what the thread loaded earlier.
abbrev pub give_up : Mutex → Mutex
give_up m = record m { unlocking = m.unlocking - 1 }

-- `semaphore_release` gives the permit.
abbrev pub release : Mutex → Mutex
release m = record m { releasing = m.releasing - 1; permits = m.permits + 1 }

pub data Step (m : Mutex) : Mutex → Type 0 where
  fast : Step m (mutex_lock_fast m)
  try : Step m (mutex_try_lock m)
  spins : Step m (spin m)
  comes : (n : Mutex) → lock_attempt false false m ≡ done n → Step m n
  tries_again :
      (late : Bool) (n : Mutex) → 0 < m.awake → lock_attempt true late m ≡ done n → Step m n
  acquires : 0 < m.permits → 0 < m.sleepers → Step m (acquire m)
  wakes : (late : Bool) (n : Mutex) → 0 < m.acquired → after_sleep late m ≡ done n → Step m n
  takes_over : (n : Mutex) → 0 < m.handing → take_over m ≡ done n → Step m n
  unlocks : (n : Mutex) → 0 < m.holders → mutex_unlock m ≡ done n → Step m n
  looks : 0 < m.unlocking → Step m (unlock_attempt m)
  gives_up : 0 < m.unlocking → Step m (give_up m)
  releases : 0 < m.releasing → Step m (release m)

abbrev pub unlocked : Mutex
unlocked = record {
  locked = false;
  woken = false;
  starving = false;
  waiters = 0;
  permits = 0;
  holders = 0;
  awake = 0;
  sleepers = 0;
  acquired = 0;
  handing = 0;
  leaves = false;
  unlocking = 0;
  releasing = 0;
}

pub data Reach : Mutex → Type 0 where
  begin : Reach unlocked
  then_step : {m n : Mutex} → Reach m → Step m n → Reach n
