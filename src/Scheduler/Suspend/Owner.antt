-- ===== src/Scheduler/Suspend/Owner.antt =====
-- Any number of callers that suspend one thread, and the scheduler that changes its state.
use pentagon.Prelude.{
  ℕ, ◌≡◌, ◌≢◌, ◌==◌, refl, sym, ap, subst, ◌∙◌, arith, true, false, Bool-cases, inl, inr, update,
  done,
}
use pentagon.Scheduler.Suspend.{
  State, ThreadStatus, plain, suspend, Suspendable, Phase, suspend_next, cas_thread_state, World,
  Step, act, moves, Reach, begin, then_step,
}
use pentagon.Scheduler.Suspend.Guard.{
  is_suspended, holds, Held, Held-suspended, Held-free, Ends, Quiet, next-Quiet, Keeps, next-Keeps,
  is_done, cas_thread_state-stays, next-done,
}

pub record IsGuarded (w : World) : Type 0 where
  pub held : (i : ℕ) → Held (w.phase i) w.thread.status
  pub alone : (i j : ℕ) → holds (w.phase i) ≡ true → holds (w.phase j) ≡ true → i ≡ j

-- A caller that does not hold the bit of a suspended thread changes nothing.
quiet :
    (p q : Phase) (t u : Suspendable)
    → holds p ≡ false
    → is_suspended t.status ≡ true
    → suspend_next p t ≡ done (q, u)
    → (holds q ≡ false) × (u.status ≡ t.status)
quiet p q t u free bit e = suspended_case t.status refl bit
  where
    suspended_case :
        (s : ThreadStatus)
        → t.status ≡ s
        → is_suspended s ≡ true
        → (holds q ≡ false) × (u.status ≡ t.status)
    suspended_case (plain x) same h = ground arith
    suspended_case (suspend x) same h =
        let r : Ends (Quiet x) (suspend_next p t) =
          subst
            (λ s.
              Ends (Quiet x)
                (suspend_next p (record { status = s; preempt_stop = t.preempt_stop })))
            (sym same) (next-Quiet p x t.preempt_stop free) in
        let a : (holds q ≡ false) × (u.status ≡ suspend x) = subst (Ends (Quiet x)) e r in
        (a.0, a.1 ∙ sym same)

-- The others, if one of them holds the bit.
others :
    (w : World) (i j : ℕ) (q : Phase) (u : Suspendable)
    → IsGuarded w
    → i ≢ j
    → holds (w.phase j) ≡ true
    → suspend_next (w.phase i) w.thread ≡ done (q, u)
    → (holds q ≡ false) × (u.status ≡ w.thread.status)
others w i j q u g ne hj e = elim (Bool-cases (holds (w.phase i))) [
  | inl hi ↦ absurd (ne (g.alone i j hi hj))
  | inr free ↦
      quiet (w.phase i) q w.thread u free (Held-suspended (w.phase j) w.thread.status hj (g.held j))
        e
]

act-held :
    (w : World) (i j : ℕ) (q : Phase) (u : Suspendable)
    → IsGuarded w
    → suspend_next (w.phase i) w.thread ≡ done (q, u)
    → Held (update w.phase i q j) u.status
act-held w i j q u g e = elim (Bool-cases (i == j)) [
  | inl same ↦ rw same (subst (Ends Keeps) e (next-Keeps (w.phase i) w.thread (g.held i)))
  | inr ne ↦ rw ne (elim (Bool-cases (holds (w.phase j))) [
    | inl hj ↦
        let o = others w i j q u g (ground arith) hj e in
        subst (Held (w.phase j)) (sym o.1) (g.held j)
    | inr free ↦ Held-free (w.phase j) u.status free
  ])
]

act-alone :
    (w : World) (i j k : ℕ) (q : Phase) (u : Suspendable)
    → IsGuarded w
    → suspend_next (w.phase i) w.thread ≡ done (q, u)
    → holds (update w.phase i q j) ≡ true
    → holds (update w.phase i q k) ≡ true
    → j ≡ k
act-alone w i j k q u g e = elim (Bool-cases (i == j)) [
  | inl a ↦ elim (Bool-cases (i == k)) [
    | inl b ↦ rw (a, b) (λ hj hk. ground arith)
    | inr b ↦ rw (a, b) (λ hj hk. let o = others w i k q u g (ground arith) hk e in ground arith)
  ]
  | inr a ↦ elim (Bool-cases (i == k)) [
    | inl b ↦ rw (a, b) (λ hj hk. let o = others w i j q u g (ground arith) hj e in ground arith)
    | inr b ↦ rw (a, b) (λ hj hk. g.alone j k hj hk)
  ]
]

-- The scheduler does not move a thread that somebody holds.
moves-held :
    (w : World) (old new : State) (u : Suspendable) (j : ℕ)
    → IsGuarded w
    → cas_thread_state w.thread old new ≡ done u
    → Held (w.phase j) u.status
moves-held w old new u j g e = elim (Bool-cases (holds (w.phase j))) [
  | inl hj ↦
      let bit = Held-suspended (w.phase j) w.thread.status hj (g.held j) in
      let no_move = cas_thread_state-stays w.thread.status w.thread.preempt_stop old new bit in
      let moved : is_done (cas_thread_state w.thread old new) ≡ true = ap is_done e in ground arith
  | inr free ↦ Held-free (w.phase j) u.status free
]

Step-IsGuarded : {w v : World} → IsGuarded w → Step w v → IsGuarded v
Step-IsGuarded {w} g (act i q u e) = record {
  held = λ j. act-held w i j q u g e;
  alone = λ j k. act-alone w i j k q u g e;
}
Step-IsGuarded {w} g (moves old new u e) = record {
  held = λ j. moves-held w old new u j g e;
  alone = g.alone;
}

Reach-IsGuarded : {w : World} → Reach w → IsGuarded w
Reach-IsGuarded begin = record { held = λ i. tt; alone = λ i j hi hj. ground arith }
Reach-IsGuarded (then_step r st) = Step-IsGuarded (Reach-IsGuarded r) st

-- In every state that the callers and the scheduler reach in any interleaving: while a caller holds
-- the THREAD_SUSPEND bit, the bit is set, no other caller holds it, the scheduler cannot change the
-- state of the thread, and what the holder does next succeeds.
pub suspended_by_one :
    (w : World) (i : ℕ)
    → Reach w
    → holds (w.phase i) ≡ true
    → (is_suspended w.thread.status ≡ true)
      × ((j : ℕ) → holds (w.phase j) ≡ true → i ≡ j)
      × ((old new : State) → is_done (cas_thread_state w.thread old new) ≡ false)
      × (is_done (suspend_next (w.phase i) w.thread) ≡ true)
suspended_by_one w i r h =
    let g = Reach-IsGuarded r in
    let bit = Held-suspended (w.phase i) w.thread.status h (g.held i) in
    (
      bit,
      (λ j hj. g.alone i j h hj),
      (λ old new. cas_thread_state-stays w.thread.status w.thread.preempt_stop old new bit),
      next-done (w.phase i) w.thread.status w.thread.preempt_stop h (g.held i),
    )
