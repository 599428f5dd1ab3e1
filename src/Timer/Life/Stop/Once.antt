-- ===== src/Timer/Life/Stop/Once.antt =====
-- That `timer_stop` answers true on one CPU only.
use pentagon.Prelude.{
  ℕ, ◌≡◌, ◌==◌, refl, sym, ap, subst, ◌∙◌, arith, true, false, Bool-cases, inl, inr, ◌⊎◌, add32,
  Outcome, done, panic, waits, is_panic,
}
use pentagon.Timer.Heap.{TimerRef}
use pentagon.Timer.Queue.{
  Status, no_status, waiting, running, deleted, removing, removed, modifying, modified_earlier,
  modified_later, moving, Timers,
}
use pentagon.Timer.Life.{status_of, set_status, deleted_more}
use pentagon.Timer.Life.Placed.{IsPlaced, deleted_timers-IsPlaced}
use pentagon.Timer.Life.Stop.{
  status_number, exchange_status, Stopper, loading, loaded, claimed, marked, answered, stop_load,
  stop_next,
}
use pentagon.Timer.Life.Stop.Keep.{
  same_number, exchange_same, quiet, claim-IsRace, finish, set_status-status_of,
  set_status-IsPlaced,
}
use pentagon.Timer.Life.Stop.Laws.{is_active}
use pentagon.Timer.Life.Stop.Race.{
  World, moved_to, Step, act, Reach, begin, then_step, holds, Fits, is_known, IsRace,
}

Keeps : ℕ → ℕ → TimerRef → World → ℕ → Outcome (Stopper × Timers) → Type 0
Keeps cpu n t g i (done r) = IsRace cpu n t (moved_to g i r)
Keeps cpu n t g i panic = ⊥
Keeps cpu n t g i waits = Unit

load-Keeps :
    (cpu n : ℕ) (t : TimerRef) (g : World) (i : ℕ) (x : Status)
    → IsRace cpu n t g
    → holds (g.phase i) ≡ false
    → status_of g.queue t ≡ x
    → is_known x ≡ true
    → IsRace cpu n t (moved_to g i (stop_load x, g.queue))
load-Keeps cpu n t g i waiting v free e k = quiet cpu n t g i (loaded waiting) v free refl refl
load-Keeps cpu n t g i modified_earlier v free e k =
    quiet cpu n t g i (loaded modified_earlier) v free refl refl
load-Keeps cpu n t g i modified_later v free e k =
    quiet cpu n t g i (loaded modified_later) v free refl refl
load-Keeps cpu n t g i modifying v free e k = quiet cpu n t g i loading v free refl tt
load-Keeps cpu n t g i deleted v free e k = quiet cpu n t g i (answered false) v free refl e
load-Keeps cpu n t g i no_status v free e k = cc
load-Keeps cpu n t g i running v free e k = cc
load-Keeps cpu n t g i removing v free e k = cc
load-Keeps cpu n t g i removed v free e k = cc
load-Keeps cpu n t g i moving v free e k = cc

loaded-Keeps :
    (cpu n : ℕ) (t : TimerRef) (g : World) (i : ℕ) (x : Status)
    → IsRace cpu n t g
    → g.phase i ≡ loaded x
    → Keeps cpu n t g i (stop_next (loaded x) g.queue t)
unfolding stop_next exchange_status Keeps
loaded-Keeps cpu n t g i x v e =
    let f = subst (Fits n (status_of g.queue t) g.queue.deleted_timers) e (v.fits i) in
    elim (Bool-cases (status_number (status_of g.queue t) == status_number x)) [
      | inl hit ↦
          let same : status_of g.queue t ≡ x = same_number (status_of g.queue t) x (ground arith) in
          rw hit (claim-IsRace cpu n t g i v (ap is_active same ∙ f))
      | inr miss ↦ rw miss (quiet cpu n t g i loading v (ap holds e) refl tt)
    ]

next-Keeps :
    (cpu n : ℕ) (t : TimerRef) (g : World) (i : ℕ) (p : Stopper)
    → IsRace cpu n t g
    → g.phase i ≡ p
    → Keeps cpu n t g i (stop_next p g.queue t)
unfolding stop_next Keeps
next-Keeps cpu n t g i loading v e =
    load-Keeps cpu n t g i (status_of g.queue t) v (ap holds e) refl v.known
next-Keeps cpu n t g i (loaded x) v e = loaded-Keeps cpu n t g i x v e
next-Keeps cpu n t g i claimed v e =
    let f = subst (Fits n (status_of g.queue t) g.queue.deleted_timers) e (v.fits i) in
    rw (exchange_same modifying deleted g.queue t f.0) (
      finish cpu n t g i marked (set_status g.queue t deleted) v (ap holds e) refl
        (set_status-IsPlaced cpu g.queue t deleted v.placed)
        (set_status-status_of g.queue t deleted) (refl, f.1))
next-Keeps cpu n t g i marked v e =
    let f = subst (Fits n (status_of g.queue t) g.queue.deleted_timers) e (v.fits i) in
    finish cpu n t g i (answered true) (deleted_more g.queue) v (ap holds e) refl
      (deleted_timers-IsPlaced cpu g.queue (add32 g.queue.deleted_timers 1) v.placed) f.0
      (refl, ap (λ c. add32 c 1) f.1)
next-Keeps cpu n t g i (answered b) v e = tt

active-is_known : (x : Status) → is_active x ≡ true → is_known x ≡ true
active-is_known modifying h = refl
active-is_known deleted h = refl
active-is_known waiting h = refl
active-is_known modified_earlier h = refl
active-is_known modified_later h = refl
active-is_known no_status h = h
active-is_known running h = h
active-is_known removing h = h
active-is_known removed h = h
active-is_known moving h = h

Step-IsRace :
    {t : TimerRef} {g h : World} (cpu n : ℕ) → IsRace cpu n t g → Step t g h → IsRace cpu n t h
unfolding Keeps
Step-IsRace {t} {g} cpu n v (act i r e) =
    subst (Keeps cpu n t g i) e (next-Keeps cpu n t g i (g.phase i) v refl)

Reach-IsRace :
    {t : TimerRef} {s : Timers} {g : World} (cpu : ℕ)
    → IsPlaced cpu s
    → is_active (status_of s t) ≡ true
    → Reach t s g
    → IsRace cpu s.deleted_timers t g
Reach-IsRace {t} {s} cpu p h begin = record {
  placed = p;
  known = active-is_known (status_of s t) h;
  fits = λ i. tt;
  alone = λ i j hi hj. cc;
  uncounted = λ a. refl;
  holder = λ d. let e = ap is_active d in cc;
}
Reach-IsRace cpu p h (then_step r st) = Step-IsRace cpu _ (Reach-IsRace cpu p h r) st

Keeps-safe :
    (cpu n : ℕ) (t : TimerRef) (g : World) (i : ℕ) (o : Outcome (Stopper × Timers))
    → Keeps cpu n t g i o
    → is_panic o ≡ false
unfolding Keeps
Keeps-safe cpu n t g i (done r) k = refl
Keeps-safe cpu n t g i panic k = absurd k
Keeps-safe cpu n t g i waits k = refl

-- The holder of a deleted timer.
deleter :
    (n c : ℕ) (x : Status) (p : Stopper)
    → Fits n x c p
    → x ≡ deleted
    → holds p ≡ true
    → (p ≡ marked) ⊎ (p ≡ answered true)
deleter n c x loading f d h = cc
deleter n c x (loaded y) f d h = cc
deleter n c x claimed f d h = let e = sym f.0 ∙ d in cc
deleter n c x marked f d h = inl refl
deleter n c x (answered true) f d h = inr refl
deleter n c x (answered false) f d h = cc

-- Any number of CPUs call `timer_stop` at once, in any interleaving, on a timer that is in a heap and
-- still to be run, and nobody else works on it: in every state that they reach, the heap is well
-- formed and the ASSERT of the second exchange does not fail; when one CPU answers true, the timer is
-- deleted and was counted once, and no other CPU answers true; when one answers false, the timer is
-- deleted and another CPU has deleted it, which answers true or is to count it and then to do so.
pub timer_stop-once :
    (cpu : ℕ) (s : Timers) (t : TimerRef) (g : World)
    → IsPlaced cpu s
    → is_active (status_of s t) ≡ true
    → Reach t s g
    → IsPlaced cpu g.queue
      × ((i : ℕ) → is_panic (stop_next (g.phase i) g.queue t) ≡ false)
      × ((i : ℕ)
          → g.phase i ≡ answered true
          → (status_of g.queue t ≡ deleted)
            × (g.queue.deleted_timers ≡ add32 s.deleted_timers 1)
            × ((j : ℕ) → g.phase j ≡ answered true → i ≡ j))
      × ((i : ℕ)
          → g.phase i ≡ answered false
          → (status_of g.queue t ≡ deleted)
            × ((j : ℕ) × ((g.phase j ≡ marked) ⊎ (g.phase j ≡ answered true))))
timer_stop-once cpu s t g p h r =
    let v = Reach-IsRace cpu p h r in
    let n = s.deleted_timers in
    let F = Fits n (status_of g.queue t) g.queue.deleted_timers in
    (
      v.placed,
      λ i.
          Keeps-safe cpu n t g i (stop_next (g.phase i) g.queue t)
            (next-Keeps cpu n t g i (g.phase i) v refl),
      λ i e.
          let f = subst F e (v.fits i) in (f.0, f.1, λ j k. v.alone i j (ap holds e) (ap holds k)),
      λ i e.
          let d : status_of g.queue t ≡ deleted = subst F e (v.fits i) in
          let m = v.holder d in
          (
            d,
            (
              m.0,
              deleter n g.queue.deleted_timers (status_of g.queue t) (g.phase m.0) (v.fits m.0) d
                  m.1,
            ),
          ),
    )
