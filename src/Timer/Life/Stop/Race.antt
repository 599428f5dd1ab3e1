-- ===== src/Timer/Life/Stop/Race.antt =====
-- `timer_stop` of one timer by any number of CPUs at once.
use pentagon.Prelude.{
  ℕ, ◌≡◌, ◌≢◌, ◌==◌, refl, subst, arith, Bool, true, false, Bool-cases, inl, inr, update, add32,
  done,
}
use pentagon.Timer.Heap.{TimerRef}
use pentagon.Timer.Queue.{Status, deleted, modifying, Timers}
use pentagon.Timer.Life.{status_of}
use pentagon.Timer.Life.Placed.{IsPlaced}
use pentagon.Timer.Life.Stop.{Stopper, loading, loaded, claimed, marked, answered, stop_next}
use pentagon.Timer.Life.Stop.Laws.{is_active}

-- The timers, and where each CPU stands.
pub record World : Type 0 where
  pub queue : Timers
  pub phase : ℕ → Stopper

abbrev pub moved_to : World → ℕ → Stopper × Timers → World
moved_to g i r = record { queue = r.1; phase = update g.phase i r.0 }

pub data Step (t : TimerRef) (g : World) : World → Type 0 where
  act :
      (i : ℕ) (r : Stopper × Timers)
      → stop_next (g.phase i) g.queue t ≡ done r
      → Step t g (moved_to g i r)

-- All CPUs start at the load.
pub data Reach (t : TimerRef) (s : Timers) : World → Type 0 where
  begin : Reach t s (record { queue = s; phase = λ i. loading })
  then_step : {g h : World} → Reach t s g → Step t g h → Reach t s h

-- The CPU has changed the status.
abbrev pub holds : Stopper → Bool
holds claimed = true
holds marked = true
holds (answered b) = b
holds _ = false

-- What a CPU relies on, by the status and the counter of the deleted timers, `n` at the start.
abbrev pub Fits : ℕ → Status → ℕ → Stopper → Type 0
Fits n x c loading = Unit
Fits n x c (loaded y) = is_active y ≡ true
Fits n x c claimed = (x ≡ modifying) × (c ≡ n)
Fits n x c marked = (x ≡ deleted) × (c ≡ n)
Fits n x c (answered true) = (x ≡ deleted) × (c ≡ add32 n 1)
Fits n x c (answered false) = x ≡ deleted

abbrev pub is_known : Status → Bool
is_known modifying = true
is_known deleted = true
is_known x = is_active x

pub record IsRace (cpu n : ℕ) (t : TimerRef) (g : World) : Type 0 where
  pub placed : IsPlaced cpu g.queue
  pub known : is_known (status_of g.queue t) ≡ true
  pub fits : (i : ℕ) → Fits n (status_of g.queue t) g.queue.deleted_timers (g.phase i)
  pub alone : (i j : ℕ) → holds (g.phase i) ≡ true → holds (g.phase j) ≡ true → i ≡ j
  pub uncounted : is_active (status_of g.queue t) ≡ true → g.queue.deleted_timers ≡ n
  pub holder : status_of g.queue t ≡ deleted → (i : ℕ) × (holds (g.phase i) ≡ true)

-- A timer that is still to be run has no holder, and who has none does not mind the other changes.
pub Fits-active :
    (n c d : ℕ) (x y : Status) (p : Stopper)
    → is_active x ≡ true
    → Fits n x c p
    → Fits n y d p × (holds p ≡ false)
Fits-active n c d x y loading h f = (tt, refl)
Fits-active n c d x y (loaded z) h f = (f, refl)
Fits-active n c d x y claimed h f = let e = subst (λ z. is_active z ≡ true) f.0 h in cc
Fits-active n c d x y marked h f = let e = subst (λ z. is_active z ≡ true) f.0 h in cc
Fits-active n c d x y (answered true) h f = let e = subst (λ z. is_active z ≡ true) f.0 h in cc
Fits-active n c d x y (answered false) h f = let e = subst (λ z. is_active z ≡ true) f h in cc

pub Fits-deleted :
    (n c d : ℕ) (x : Status) (p : Stopper) → holds p ≡ false → Fits n x c p → Fits n deleted d p
Fits-deleted n c d x loading h f = tt
Fits-deleted n c d x (loaded z) h f = f
Fits-deleted n c d x claimed h f = cc
Fits-deleted n c d x marked h f = cc
Fits-deleted n c d x (answered true) h f = cc
Fits-deleted n c d x (answered false) h f = refl

-- A predicate of the phases after one of them changed.
pub at_update :
    (P : Stopper → Type 0) (f : ℕ → Stopper) (i j : ℕ) (q : Stopper)
    → P q
    → (i ≢ j → P (f j))
    → P (update f i q j)
at_update P f i j q h k = elim (Bool-cases (i == j)) [
  | inl same ↦ rw same h
  | inr ne ↦ rw ne (k (ground arith))
]

-- One CPU holds at most, if it is the one that changed or if that one does not hold.
pub alone_update :
    (f : ℕ → Stopper) (i : ℕ) (q : Stopper)
    → ((j : ℕ) → i ≢ j → holds (f j) ≡ false)
    → (j k : ℕ) → holds (update f i q j) ≡ true
    → holds (update f i q k) ≡ true
    → j ≡ k
alone_update f i q none_else j k = elim (Bool-cases (i == j)) [
  | inl a ↦ elim (Bool-cases (i == k)) [
    | inl b ↦ rw (a, b) (λ hj hk. ground arith)
    | inr b ↦ rw (a, b) (λ hj hk. let e = none_else k (ground arith) in cc)
  ]
  | inr a ↦ rw a (λ hj. let e = none_else j (ground arith) in cc)
]
