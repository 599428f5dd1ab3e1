-- ===== src/Sync/Mutex/Tests.antt =====
-- A mutex at concrete values.
use pentagon.Prelude.{◌≡◌, ◌≤◌, refl, arith, true}
use pentagon.Sync.Mutex.{
  Mutex, mutex_lock_fast, lock_attempt, mutex_unlock, unlock_attempt, fast, comes, unlocks, looks,
  unlocked, Reach, begin, then_step,
}
use pentagon.Sync.Mutex.Exclusion.{bit, IsSafe, mutual_exclusion}

-- One thread has the mutex, and another one sleeps.
abbrev contended : Mutex
contended = record unlocked { locked = true; holders = 1; waiters = 1; sleepers = 1 }

contended-Reach : Reach contended
unfolding mutex_lock_fast lock_attempt
contended-Reach = then_step (then_step begin fast) (comes contended refl)

-- The first one unlocks, and is to wake the other.
abbrev freed : Mutex
freed = record unlocked { waiters = 1; sleepers = 1; unlocking = 1 }

freed-Reach : Reach freed
unfolding mutex_unlock
freed-Reach = then_step contended-Reach (unlocks freed (omega arith) refl)

waking-Reach : Reach (unlock_attempt freed)
waking-Reach = then_step freed-Reach (looks (omega arith))

mutual_exclusion_example :
    let m = unlock_attempt freed in (m.holders ≡ bit m.locked) × (m.holders ≤ 1) × IsSafe m
mutual_exclusion_example = mutual_exclusion (unlock_attempt freed) waking-Reach
