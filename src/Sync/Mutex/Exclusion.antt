-- ===== src/Sync/Mutex/Exclusion.antt =====
-- At most one thread has the mutex, and no ASSERT fails.
use pentagon.Prelude.{
  is_panic, ℕ, ◌+◌, ◌<◌, ◌≤◌, ◌≡◌, refl, subst, arith, Bool, true, false, ◌&&◌, if◌then◌else◌,
  Outcome, done, panic, waits,
}
use pentagon.Sync.Mutex.{
  Mutex, mutex_lock_fast, mutex_try_lock, spin, lock_attempt, acquire, after_sleep, take_over,
  mutex_unlock, unlock_attempt, give_up, gives_up, release, Step, fast, try, spins, comes,
  tries_again, acquires, wakes, takes_over, unlocks, looks, releases, Reach, begin, then_step,
}

abbrev pub bit : Bool → ℕ
bit true = 1
bit false = 0

-- One wakeup is on its way, from the unlocking thread to the awake one, exactly if MUTEX_WOKEN is set,
-- or the mutex is starving and free.
pub record IsExclusive (m : Mutex) : Type 0 where
  pub one : m.holders ≡ bit m.locked
  pub modes : bit m.starving + bit m.woken ≤ 1
  pub wakeups :
      m.releasing + m.permits + m.acquired + m.awake + m.handing + bit (m.starving && m.locked)
      ≡ bit m.woken + bit m.starving
  pub no_awake : m.awake ≤ bit m.woken
  pub no_handing : m.handing ≤ bit m.starving
  pub counted :
      m.waiters + (if m.starving then 0 else m.releasing + m.permits)
      ≡ m.sleepers + (if m.starving then m.acquired + m.handing else 0)

abbrev Keeps : Outcome Mutex → Type 0
Keeps (done m) = IsExclusive m
Keeps panic = Unit
Keeps waits = Unit

fast-IsExclusive : (m : Mutex) → IsExclusive m → IsExclusive (mutex_lock_fast m)
unfolding mutex_lock_fast
fast-IsExclusive m v = ground arith

try-IsExclusive : (m : Mutex) → IsExclusive m → IsExclusive (mutex_try_lock m)
unfolding mutex_try_lock
try-IsExclusive m v = ground arith

spin-IsExclusive : (m : Mutex) → IsExclusive m → IsExclusive (spin m)
unfolding spin
spin-IsExclusive m v = ground arith

look-IsExclusive : (m : Mutex) → 0 < m.unlocking → IsExclusive m → IsExclusive (unlock_attempt m)
unfolding unlock_attempt
look-IsExclusive m b v = ground arith

awake-Keeps :
    (late : Bool) (m : Mutex) → 0 < m.awake → IsExclusive m → Keeps (lock_attempt true late m)
unfolding lock_attempt
awake-Keeps late m b v = ground arith

comes-Keeps : (m : Mutex) → IsExclusive m → Keeps (lock_attempt false false m)
unfolding lock_attempt
comes-Keeps m v = ground arith

after_sleep-Keeps :
    (late : Bool) (m : Mutex) → 0 < m.acquired → IsExclusive m → Keeps (after_sleep late m)
unfolding after_sleep
after_sleep-Keeps late m b v = ground arith

take_over-Keeps : (m : Mutex) → 0 < m.handing → IsExclusive m → Keeps (take_over m)
unfolding take_over
take_over-Keeps m b v = ground arith

mutex_unlock-Keeps : (m : Mutex) → 0 < m.holders → IsExclusive m → Keeps (mutex_unlock m)
unfolding mutex_unlock
mutex_unlock-Keeps m b v = ground arith

acquire-IsExclusive :
    (m : Mutex) → 0 < m.permits → 0 < m.sleepers → IsExclusive m → IsExclusive (acquire m)
acquire-IsExclusive m a b v = ground arith

give_up-IsExclusive : (m : Mutex) → IsExclusive m → IsExclusive (give_up m)
give_up-IsExclusive m v = ground arith

release-IsExclusive : (m : Mutex) → 0 < m.releasing → IsExclusive m → IsExclusive (release m)
release-IsExclusive m a v = ground arith

Step-IsExclusive : {m n : Mutex} → IsExclusive m → Step m n → IsExclusive n
Step-IsExclusive {m} v fast = fast-IsExclusive m v
Step-IsExclusive {m} v try = try-IsExclusive m v
Step-IsExclusive {m} v spins = spin-IsExclusive m v
Step-IsExclusive {m} v (comes n e) = subst Keeps e (comes-Keeps m v)
Step-IsExclusive {m} v (tries_again late n b e) = subst Keeps e (awake-Keeps late m b v)
Step-IsExclusive {m} v (acquires a b) = acquire-IsExclusive m a b v
Step-IsExclusive {m} v (wakes late n b e) = subst Keeps e (after_sleep-Keeps late m b v)
Step-IsExclusive {m} v (takes_over n b e) = subst Keeps e (take_over-Keeps m b v)
Step-IsExclusive {m} v (unlocks n b e) = subst Keeps e (mutex_unlock-Keeps m b v)
Step-IsExclusive {m} v (looks b) = look-IsExclusive m b v
Step-IsExclusive {m} v (gives_up b) = give_up-IsExclusive m v
Step-IsExclusive {m} v (releases b) = release-IsExclusive m b v

Reach-IsExclusive : {m : Mutex} → Reach m → IsExclusive m
Reach-IsExclusive begin = record {
  one = refl;
  modes = omega arith;
  wakeups = refl;
  no_awake = omega arith;
  no_handing = omega arith;
  counted = refl;
}
Reach-IsExclusive (then_step r st) = Step-IsExclusive (Reach-IsExclusive r) st

-- No action that a thread comes to fails.
pub record IsSafe (m : Mutex) : Type 0 where
  pub attempt : (late : Bool) → 0 < m.awake → is_panic (lock_attempt true late m) ≡ false
  pub sleep : (late : Bool) → 0 < m.acquired → is_panic (after_sleep late m) ≡ false
  pub handover : 0 < m.handing → is_panic (take_over m) ≡ false
  pub unlock : 0 < m.holders → is_panic (mutex_unlock m) ≡ false

attempt-safe :
    (late : Bool) (m : Mutex)
    → IsExclusive m
    → 0 < m.awake
    → is_panic (lock_attempt true late m) ≡ false
unfolding lock_attempt
attempt-safe late m v b = ground arith

sleep-safe :
    (late : Bool) (m : Mutex)
    → IsExclusive m
    → 0 < m.acquired
    → is_panic (after_sleep late m) ≡ false
unfolding after_sleep
sleep-safe late m v b = ground arith

handover-safe : (m : Mutex) → IsExclusive m → 0 < m.handing → is_panic (take_over m) ≡ false
unfolding take_over
handover-safe m v b = ground arith

unlock-safe : (m : Mutex) → IsExclusive m → 0 < m.holders → is_panic (mutex_unlock m) ≡ false
unfolding mutex_unlock
unlock-safe m v b = ground arith

-- In every state that threads reach in any interleaving: at most one thread has the mutex, and one has
-- it exactly if MUTEX_LOCKED is set; and no ASSERT fails in what a thread does next, woken up, with the
-- mutex handed over, or as its holder.
pub mutual_exclusion :
    (m : Mutex) → Reach m → (m.holders ≡ bit m.locked) × (m.holders ≤ 1) × IsSafe m
mutual_exclusion m r =
    let v = Reach-IsExclusive r in
    let at_most : m.holders ≤ 1 = let o = v.one in ground arith in
    (
      v.one,
      at_most,
      record {
        attempt = λ late. attempt-safe late m v;
        sleep = λ late. sleep-safe late m v;
        handover = handover-safe m v;
        unlock = unlock-safe m v;
      },
    )
