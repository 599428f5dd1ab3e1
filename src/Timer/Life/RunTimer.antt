-- ===== src/Timer/Life/RunTimer.antt =====
-- `run_timer`: which timer runs, and what becomes of the others.
use pentagon.Prelude.{
  weigh-here, ap₂, weigh-zero, ltb→lt, inr, update-ne, inl, update_self, ℕ, zero, suc, ◌≤◌, ◌<◌,
  ◌≡◌, ◌≢◌, refl, sym, ap, subst, ◌∙◌, arith, Bool-cases, ltb, ◌==◌, if◌then◌else◌, weigh, one_at,
  add32, sub32, Outcome, done, panic, waits, or_panic,
}
use pentagon.Timer.Heap.{TimerRef}
use pentagon.Timer.Queue.{
  Status, no_status, waiting, running, deleted, removing, removed, modifying, modified_earlier,
  modified_later, moving, Timer, Timers, when_of,
}
use pentagon.Timer.Queue.Delete.{root-le}
use pentagon.Timer.Life.{
  status_of, set_status, deleted_less, deleted_more, Call, Ran, ran, no_timers, next_at,
  after_removal, run_root, run_timer,
}
use pentagon.Timer.Life.Placed.{
  IsPlaced, IsSettled, unsettled, deleted_timers-IsPlaced, set_timer-IsPlaced,
}
use pentagon.Timer.Life.RemoveRoot.{Removed, removed_timer, remove_root-Removed, Removed-IsSettled}
use pentagon.Timer.Life.RunOne.{RanOne, call_of, run_one_timer-RanOne}

-- The timer that ran: it waited, was due, and nothing that is still in the heap was due before it.
pub record Fired (cpu : ℕ) (s : Timers) (now : ℕ) (call : Call) : Type 0 where
  pub timer : TimerRef
  pub there : 0 < weigh (one_at timer) s.len s.slots
  pub waited : status_of s timer ≡ waiting
  pub due : when_of s timer ≤ now
  pub call_is : call ≡ call_of (s.timer timer)

-- What `run_timer` returns, and with which heap.
abbrev pub Answer : ℕ → Timers → ℕ → Ran → Timers → Type 0
Answer cpu s now (ran call) s' = Fired cpu s now call
Answer cpu s now no_timers s' = s'.len ≡ 0
Answer cpu s now (next_at w) s' =
    (now < w)
    × (0 < s'.len)
    × (w ≡ when_of s' (s'.slots 0))
    × ((k : ℕ) → k < s'.len → w ≤ when_of s' (s'.slots k))

abbrev pub Runs : ℕ → Timers → ℕ → Outcome (Ran × Timers) → Type 0
Runs cpu s now (done (r, s')) = IsPlaced cpu s' × (s'.len ≤ s.len) × Answer cpu s now r s'
Runs cpu s now panic = ⊥
Runs cpu s now waits = ⊥

Removed-Runs :
    (cpu : ℕ) (s s1 s2 : Timers) (now : ℕ) (o : Outcome (Ran × Timers))
    → Removed cpu s s1
    → s2.timer ≡ s1.timer
    → s2.slots ≡ s1.slots
    → s2.len ≡ s1.len
    → Runs cpu s2 now o
    → Runs cpu s now o
Removed-Runs cpu s s1 s2 now (done (ran call, s')) r et es el (p, le, f) =
    let t = s.slots 0 in
    let in_s1 : status_of s1 f.timer ≡ waiting = ap (λ g. (g f.timer).status) (sym et) ∙ f.waited in
    let at_root : status_of s1 t ≡ removed =
      ap (λ g. (g t).status) r.timers
      ∙ ap (λ (y : Timer). y.status) (update_self s.timer t (removed_timer (s.timer t))) in
    let same_count : weigh (one_at f.timer) s2.len s2.slots
        ≡ weigh (one_at f.timer) s1.len s1.slots =
      ap₂ (λ n a. weigh (one_at f.timer) n a) el es in
    let other : t ≢ f.timer = λ e. cc (ap (status_of s1) e) in
    let same : s2.timer f.timer ≡ s.timer f.timer =
      ap (λ g. g f.timer) (et ∙ r.timers)
      ∙ update-ne s.timer t f.timer (removed_timer (s.timer t)) other in
    (
      p,
      omega (arith, r.shorter),
      record {
        timer = f.timer;
        there = omega (arith, r.rest (one_at f.timer), f.there, same_count);
        waited = ap (λ (y : Timer). y.status) (sym same) ∙ f.waited;
        due = subst (λ (y : Timer). y.when ≤ now) same f.due;
        call_is = f.call_is ∙ ap call_of same;
      },
    )
Removed-Runs cpu s s1 s2 now (done (no_timers, s')) r et es el (p, le, f) =
    (p, omega (arith, r.shorter), f)
Removed-Runs cpu s s1 s2 now (done (next_at w, s')) r et es el (p, le, f) =
    (p, omega (arith, r.shorter), f)
Removed-Runs cpu s s1 s2 now panic r et es el h = elim h [ ]
Removed-Runs cpu s s1 s2 now waits r et es el h = elim h [ ]

-- A removal, with a change of the counter of deleted timers, and the rest of the loop.
removal-Runs :
    (cpu : ℕ) (s : Timers) (now n : ℕ) (again : Timers → Outcome (Ran × Timers)) (s1 : Timers)
    → Removed cpu s s1
    → ((s2 : Timers)
        → IsPlaced cpu s2
        → s2.timer ≡ s1.timer
        → s2.slots ≡ s1.slots
        → s2.len ≡ s1.len
        → 0 < s2.len
        → Runs cpu s2 now (again s2))
    → Runs cpu s now (after_removal (record s1 { deleted_timers = n }) again)
unfolding after_removal
removal-Runs cpu s now n again s1 r ih =
    let s2 = record s1 { deleted_timers = n } in
    let p2 = deleted_timers-IsPlaced cpu s1 n r.placed in
    elim (Bool-cases (s1.len == 0)) [
      | inl e ↦
          subst (Runs cpu s now) {x = done (no_timers, s2)}
            (sym (ap (λ b. if b then done (no_timers, s2) else again s2) e))
            (p2, omega (arith, r.shorter), ground arith)
      | inr e ↦
          subst (Runs cpu s now) {x = again s2}
            (sym (ap (λ b. if b then done (no_timers, s2) else again s2) e))
            (Removed-Runs cpu s s1 s2 now (again s2) r refl refl refl
              (ih s2 p2 refl refl refl (ground arith)))
    ]

RanOne-IsPlaced :
    (cpu : ℕ) (s s' : Timers) (now m : ℕ)
    → RanOne cpu s now m s'
    → IsPlaced cpu s' × (s'.len ≤ s.len)
RanOne-IsPlaced cpu s s' now zero r = (r.placed, omega (arith, r.shorter))
RanOne-IsPlaced cpu s s' now (suc m) r = (r.placed, omega (arith, r.same_len))

run_root-Runs :
    (cpu : ℕ) (s : Timers) (now : ℕ) (again : Timers → Outcome (Ran × Timers)) (x : Status)
    → IsPlaced cpu s
    → 0 < s.len
    → status_of s (s.slots 0) ≡ x
    → unsettled x ≡ 0
    → ((s1 s2 : Timers)
        → Removed cpu s s1
        → IsPlaced cpu s2
        → s2.timer ≡ s1.timer
        → s2.slots ≡ s1.slots
        → s2.len ≡ s1.len
        → 0 < s2.len
        → Runs cpu s2 now (again s2))
    → Runs cpu s now (run_root cpu s now again x)
unfolding run_root
run_root-Runs cpu s now again waiting p here e settled ih =
    let t = s.slots 0 in
    let s0 = set_status s t running in
    let p0 = set_timer-IsPlaced cpu s t (record (s.timer t) { status = running }) p refl refl in
    elim (Bool-cases (ltb now (when_of s t))) [
      | inl later ↦ rw later (
        p,
        omega arith,
        (
          ltb→lt now (when_of s t) later,
          here,
          refl,
          λ k lt. root-le (when_of s) s.len s.slots p.valid.heap k k (omega arith) lt,
        ),
      )
      | inr due ↦
          let (s', f, one) = run_one_timer-RanOne cpu s0 now p0 here in
          let (p', le) = RanOne-IsPlaced cpu s0 s' now (s0.timer t).period one in
          rw due (
            subst (λ o. Runs cpu s now (or_panic o (λ r. done (ran r.0, r.1)))) (sym f)
              (
                p',
                le,
                record {
                  timer = t;
                  there = weigh-here s.len s.slots 0 here;
                  waited = e;
                  due = ground arith;
                  call_is =
                      ap call_of (update_self s.timer t (record (s.timer t) { status = running }));
                },
              ))
    ]
run_root-Runs cpu s now again deleted p here e settled ih =
    let (s1, f, r) = remove_root-Removed cpu s p here in
    subst (λ o. Runs cpu s now (or_panic o (λ s2. after_removal (deleted_less s2) again))) (sym f)
      (removal-Runs cpu s now (sub32 s1.deleted_timers 1) again s1 r
        (λ s2 p2 a b c pos. ih s1 s2 r p2 a b c pos))
run_root-Runs cpu s now again modified_earlier p here e settled ih =
    let (s1, f, r) = remove_root-Removed cpu s p here in
    subst (λ o. Runs cpu s now (or_panic o (λ s2. after_removal (deleted_more s2) again))) (sym f)
      (removal-Runs cpu s now (add32 s1.deleted_timers 1) again s1 r
        (λ s2 p2 a b c pos. ih s1 s2 r p2 a b c pos))
run_root-Runs cpu s now again modified_later p here e settled ih =
    let (s1, f, r) = remove_root-Removed cpu s p here in
    subst (λ o. Runs cpu s now (or_panic o (λ s2. after_removal (deleted_more s2) again))) (sym f)
      (removal-Runs cpu s now (add32 s1.deleted_timers 1) again s1 r
        (λ s2 p2 a b c pos. ih s1 s2 r p2 a b c pos))
run_root-Runs cpu s now again no_status p here e settled ih = absurd (omega (arith, settled))
run_root-Runs cpu s now again running p here e settled ih = absurd (omega (arith, settled))
run_root-Runs cpu s now again removing p here e settled ih = absurd (omega (arith, settled))
run_root-Runs cpu s now again removed p here e settled ih = absurd (omega (arith, settled))
run_root-Runs cpu s now again modifying p here e settled ih = absurd (omega (arith, settled))
run_root-Runs cpu s now again moving p here e settled ih = absurd (omega (arith, settled))

-- With fuel from the number of timers on, `run_timer` ends on a heap with timers, all settled: it
-- runs a timer that waits in the heap and is due, or finds the heap empty, or returns the time of
-- the first timer, which is not due and of which none is due earlier. The heap stays well formed.
pub run_timer-Runs :
    (f cpu : ℕ) (s : Timers) (now : ℕ)
    → IsPlaced cpu s
    → IsSettled s
    → 0 < s.len
    → s.len ≤ f
    → Runs cpu s now (run_timer f cpu s now)
unfolding run_timer
run_timer-Runs zero cpu s now p h here fuel = absurd (omega arith)
run_timer-Runs (suc f) cpu s now p h here fuel =
    run_root-Runs cpu s now (λ s1. run_timer f cpu s1 now) (status_of s (s.slots 0)) p here refl
      (weigh-zero (λ t. unsettled (status_of s t)) s.len s.slots 0 h here)
      (λ s1 s2 r p2 et es el pos.
        run_timer-Runs f cpu s2 now p2 (rw (et, es, el) (Removed-IsSettled cpu s s1 r h)) pos
          (omega (arith, el, r.shorter)))
