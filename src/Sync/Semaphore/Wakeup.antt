-- ===== src/Sync/Semaphore/Wakeup.antt =====
-- In every interleaving no wakeup is lost, and permits are neither made nor lost.
use pentagon.Prelude.{
  ap, ℕ, ◌+◌, ◌%◌, ◌^◌, ◌≤◌, ◌<◌, ◌≡◌, inl, inr, refl, arith, Bool, true, false, Bool-cases, List,
  [], ◌∷◌, ◌==◌, length, length-append,
}
use pentagon.Sync.Semaphore.{WaitingRef}
use pentagon.Sync.Semaphore.Queue.{joined}
use pentagon.Sync.Semaphore.System.{
  Holder, free, entering, Semaphore, semaphore_can_acquire, announce, check_or_park, add_permit,
  look_for_waiters, take_from, take_waiter, ready_waiter, try_again, Step, try_once, enter, settle,
  release, look, dequeue, ready, retry, Reach, begin, then_step,
}

abbrev pub held : Holder → ℕ
held free = 0
held entering = 1

-- Threads that will still wake a waiter or are woken.
abbrev pub on_the_way : Semaphore → ℕ
on_the_way s = s.added + s.wanting + s.dequeued + s.woken

pub record IsSound (first : ℕ) (s : Semaphore) : Type 0 where
  pub counted : s.nwait ≡ length s.waiters + held s.holder
  pub small : s.nwait < 2 ^ 32
  pub word : s.value < 2 ^ 32
  pub helped : 0 < length s.waiters → s.value ≤ on_the_way s
  pub permits : (s.value + s.taken) % 2 ^ 32 ≡ (first + s.given) % 2 ^ 32

length-joined :
    (lifo : Bool) (wt : WaitingRef) (xs : List WaitingRef)
    → length (joined lifo wt xs) ≡ length xs + 1
length-joined true wt xs = omega arith
length-joined false wt xs = length-append xs (wt ∷ [])

take_from-IsSound :
    (first : ℕ) (s : Semaphore) (xs : List WaitingRef)
    → s.waiters ≡ xs
    → s.holder ≡ free
    → 0 < s.wanting
    → (s.nwait == 0) ≡ false
    → IsSound first s
    → IsSound first (take_from xs s)
unfolding take_from
take_from-IsSound first s [] e f a n v = absurd (ground (arith, ap length e, v.counted))
take_from-IsSound first s (x ∷ xs) e f a n v = ground (arith, ap length e)

Step-IsSound : {first : ℕ} {s t : Semaphore} → Step s t → IsSound first s → IsSound first t
unfolding semaphore_can_acquire announce check_or_park add_permit look_for_waiters take_waiter
    ready_waiter try_again
Step-IsSound {s = s} try_once v = ground arith
Step-IsSound {s = s} (enter f b) v = ground arith
Step-IsSound {s = s} (settle wt lifo h) v = ground (arith, length-joined lifo wt s.waiters)
Step-IsSound {s = s} release v = ground arith
Step-IsSound {s = s} (look a) v = ground arith
Step-IsSound {first} {s = s} (dequeue a f) v = elim (Bool-cases (s.nwait == 0)) [
  | inl e ↦ rw e (ground arith)
  | inr ne ↦ rw ne (take_from-IsSound first s s.waiters refl f a ne v)
]
Step-IsSound {s = s} (ready handoff a) v = ground arith
Step-IsSound {s = s} (retry a) v = ground arith

Reach-IsSound : {value : ℕ} {s : Semaphore} → value < 2 ^ 32 → Reach value s → IsSound value s
Reach-IsSound b begin = record {
  counted = refl;
  small = omega arith;
  word = b;
  helped = λ h. absurd (omega arith);
  permits = refl;
}
Reach-IsSound b (then_step r st) = Step-IsSound st (Reach-IsSound b r)

-- For a first value below 2 ^ 32, in every state that threads reach in any interleaving: where a
-- thread is parked and a permit is free, some thread is on the way that will wake a waiter or is woken
-- itself; `nwait` counts the parked threads and the one about to park; and the value is the first one
-- and the permits given, less those taken, up to wrap-around.
pub no_lost_wakeup :
    (value : ℕ) (s : Semaphore)
    → value < 2 ^ 32
    → Reach value s
    → (0 < length s.waiters → 0 < s.value → 0 < on_the_way s)
      × (s.nwait ≡ length s.waiters + held s.holder)
      × ((s.value + s.taken) % 2 ^ 32 ≡ (value + s.given) % 2 ^ 32)
no_lost_wakeup value s b r =
    let v = Reach-IsSound b r in
    ((λ parked free_one. omega (arith, v.helped parked)), v.counted, v.permits)
