-- ===== src/Scheduler/Suspend/Guard.antt =====
-- What one action does to a thread that is suspended, and to one that is not.
use pentagon.Prelude.{
  ◌≡◌, ◌==◌, ◌∙◌, refl, sym, ap, subst, arith, Bool, true, false, Bool-cases, inl, inr, none, some,
  if◌then◌else◌, Outcome, done, panic, waits,
}
use pentagon.Scheduler.Suspend.{
  State, idle, runnable, running, waiting, preempted, dead, ThreadStatus, plain, suspend,
  Suspendable, code, same_status, without_suspend, cas_failed, cas_thread_state, cas_from_preempted,
  cas_to_suspend, cas_from_suspend, Phase, outside, gone, looping, loaded, suspending, requested,
  owns, resuming, readying, suspended, suspend_at, claimed, request, suspend_round, leave,
  suspend_next,
}

abbrev pub is_suspended : ThreadStatus → Bool
is_suspended (plain a) = false
is_suspended (suspend a) = true

-- The caller has set the bit and not yet taken it away.
abbrev pub holds : Phase → Bool
holds (requested _) = true
holds (owns _) = true
holds (resuming _ _) = true
holds _ = false

-- What a caller that holds the bit relies on.
abbrev pub Held : Phase → ThreadStatus → Type 0
Held (requested _) s = s ≡ suspend running
Held (owns _) s = is_suspended s ≡ true
Held (resuming _ x) s = (x ≡ s) × (is_suspended s ≡ true)
Held _ s = Unit

pub Held-suspended :
    (p : Phase) (s : ThreadStatus) → holds p ≡ true → Held p s → is_suspended s ≡ true
Held-suspended (requested b) s h k = ap is_suspended k
Held-suspended (owns b) s h k = k
Held-suspended (resuming b x) s h k = k.1
Held-suspended outside s h k = ground arith
Held-suspended gone s h k = ground arith
Held-suspended (looping b) s h k = ground arith
Held-suspended (loaded b x) s h k = ground arith
Held-suspended (suspending b x) s h k = ground arith
Held-suspended readying s h k = ground arith

pub Held-free : (p : Phase) (s : ThreadStatus) → holds p ≡ false → Held p s
Held-free outside s h = tt
Held-free gone s h = tt
Held-free (looping b) s h = tt
Held-free (loaded b x) s h = tt
Held-free (suspending b x) s h = tt
Held-free readying s h = tt
Held-free (requested b) s h = ground arith
Held-free (owns b) s h = ground arith
Held-free (resuming b x) s h = ground arith

-- A property of a result, where there is one.
abbrev pub Ends : (Phase → Suspendable → Type 0) → Outcome (Phase × Suspendable) → Type 0
Ends P (done r) = P r.0 r.1
Ends P panic = Unit
Ends P waits = Unit

if-Ends :
    (P : Phase → Suspendable → Type 0) (b : Bool) (x y : Outcome (Phase × Suspendable))
    → Ends P x
    → Ends P y
    → Ends P (if b then x else y)
if-Ends P true x y px py = px
if-Ends P false x y px py = py

-- Where the bit is set, a caller that does not hold it leaves the status as it is and does not get it.
abbrev pub Quiet : State → Phase → Suspendable → Type 0
Quiet x p t = (holds p ≡ false) × (t.status ≡ suspend x)

pub next-Quiet :
    (p : Phase) (x : State) (b : Bool)
    → holds p ≡ false
    → Ends (Quiet x) (suspend_next p (record { status = suspend x; preempt_stop = b }))
unfolding suspend_next suspend_round suspend_at cas_to_suspend cas_from_preempted cas_thread_state
next-Quiet outside x b h = (refl, refl)
next-Quiet gone x b h = (refl, refl)
next-Quiet (looping st) x b h = (refl, refl)
next-Quiet (loaded st (suspend y)) x b h = (refl, refl)
next-Quiet (loaded st (plain idle)) x b h = tt
next-Quiet (loaded st (plain runnable)) x b h = (refl, refl)
next-Quiet (loaded st (plain running)) x true h = (refl, refl)
next-Quiet (loaded st (plain running)) x false h = (refl, refl)
next-Quiet (loaded st (plain waiting)) x b h = (refl, refl)
next-Quiet (loaded st (plain preempted)) x b h = (refl, refl)
next-Quiet (loaded st (plain dead)) x b h = (refl, refl)
next-Quiet (suspending st idle) x b h = (refl, refl)
next-Quiet (suspending st runnable) x b h = (refl, refl)
next-Quiet (suspending st running) x b h = (refl, refl)
next-Quiet (suspending st waiting) x b h = (refl, refl)
next-Quiet (suspending st preempted) x b h = (refl, refl)
next-Quiet (suspending st dead) x b h = (refl, refl)
next-Quiet readying x b h = if-Ends (Quiet x) (code x == 3) waits panic tt tt
next-Quiet (requested st) x b h = ground arith
next-Quiet (owns st) x b h = ground arith
next-Quiet (resuming st y) x b h = ground arith

leave-Ends :
    (P : Phase → Suspendable → Type 0) (p : Phase) (o : Outcome Suspendable)
    → ((t : Suspendable) → P p t)
    → Ends P (leave p o)
leave-Ends P p (done t) f = f t
leave-Ends P p panic f = tt
leave-Ends P p waits f = tt

-- What the actions keep for the one who makes them.
abbrev pub Keeps : Phase → Suspendable → Type 0
Keeps p t = Held p t.status

suspended-Keeps :
    (st c : Bool) (s : State) (t : Suspendable)
    → let r = suspended st (if c then some (record t { status = suspend s }) else none) t in
      Keeps r.0 r.1
suspended-Keeps st true s t = refl
suspended-Keeps st false s t = tt

claimed-Keeps :
    (st c : Bool) (t : Suspendable)
    → let r = claimed st (if c then some (record t { status = plain waiting }) else none) t in
      Keeps r.0 r.1
claimed-Keeps st true t = tt
claimed-Keeps st false t = tt

request-Keeps :
    (st c : Bool) (t : Suspendable)
    → let r = request st (if c then some (record t { status = suspend running }) else none) t in
      Keeps r.0 r.1
request-Keeps st true t = refl
request-Keeps st false t = tt

suspend_at-Keeps : (st : Bool) (s : State) (t : Suspendable) → Ends Keeps (suspend_at st s t)
unfolding suspend_at cas_to_suspend
suspend_at-Keeps st idle t = suspended-Keeps st (same_status t.status (plain idle)) idle t
suspend_at-Keeps st runnable t =
    suspended-Keeps st (same_status t.status (plain runnable)) runnable t
suspend_at-Keeps st running t = suspended-Keeps st (same_status t.status (plain running)) running t
suspend_at-Keeps st waiting t = suspended-Keeps st (same_status t.status (plain waiting)) waiting t
suspend_at-Keeps st preempted t =
    suspended-Keeps st (same_status t.status (plain preempted)) preempted t
suspend_at-Keeps st dead t = suspended-Keeps st (same_status t.status (plain dead)) dead t

suspend_round-Keeps :
    (st : Bool) (s : ThreadStatus) (t : Suspendable) → Ends Keeps (suspend_round st s t)
unfolding suspend_round cas_from_preempted cas_to_suspend
suspend_round-Keeps st (suspend s) t = tt
suspend_round-Keeps st (plain idle) t = tt
suspend_round-Keeps st (plain dead) t = tt
suspend_round-Keeps st (plain preempted) t =
    claimed-Keeps st (same_status t.status (plain preempted)) t
suspend_round-Keeps st (plain runnable) t = suspend_at-Keeps st runnable t
suspend_round-Keeps st (plain waiting) t = suspend_at-Keeps st waiting t
suspend_round-Keeps st (plain running) t =
    let o =
      if same_status t.status (plain running)
      then some (record t { status = suspend running })
      else none in
    if-Ends Keeps t.preempt_stop (done (looping st, t)) (done (request st o t)) tt
      (request-Keeps st (same_status t.status (plain running)) t)

pub next-Keeps : (p : Phase) (t : Suspendable) → Held p t.status → Ends Keeps (suspend_next p t)
unfolding suspend_next
next-Keeps outside t h = tt
next-Keeps gone t h = tt
next-Keeps (looping st) t h = tt
next-Keeps (loaded st s) t h = suspend_round-Keeps st s t
next-Keeps (suspending st s) t h = suspend_at-Keeps st s t
next-Keeps (requested st) t h =
    leave-Ends Keeps (looping st) (cas_from_suspend t (suspend running) (plain running)) (λ u. tt)
next-Keeps (owns st) t h = (refl, h)
next-Keeps (resuming true s) t h =
    leave-Ends Keeps readying (cas_from_suspend t s (without_suspend s)) (λ u. tt)
next-Keeps (resuming false s) t h =
    leave-Ends Keeps outside (cas_from_suspend t s (without_suspend s)) (λ u. tt)
next-Keeps readying t h =
    let o = cas_thread_state t waiting runnable in
    if-Ends Keeps (same_status (without_suspend t.status) (plain waiting)) (leave outside o) panic
      (leave-Ends Keeps outside o (λ u. tt)) tt

abbrev pub is_done {ℓ} : {A : Type ℓ} → Outcome A → Bool
is_done (done _) = true
is_done panic = false
is_done waits = false

cas_failed-suspend : (old x : State) → cas_failed old (suspend x) ≡ waits
cas_failed-suspend idle x = refl
cas_failed-suspend runnable x = refl
cas_failed-suspend running x = refl
cas_failed-suspend waiting x = refl
cas_failed-suspend preempted x = refl
cas_failed-suspend dead x = refl

-- Where the bit is set, the scheduler does not change the state of the thread.
pub cas_thread_state-stays :
    (s : ThreadStatus) (b : Bool) (old new : State)
    → is_suspended s ≡ true
    → is_done (cas_thread_state (record { status = s; preempt_stop = b }) old new) ≡ false
unfolding cas_thread_state
cas_thread_state-stays (plain x) b old new h = ground arith
cas_thread_state-stays (suspend x) b old new h = elim (Bool-cases (code old == code new)) [
  | inl e ↦ rw e refl
  | inr ne ↦ rw (ne, cas_failed-suspend old x) refl
]

resumes :
    (st : Bool) (s : State) (b : Bool)
    → is_done
        (suspend_next (resuming st (suspend s)) (record { status = suspend s; preempt_stop = b }))
      ≡ true
unfolding suspend_next cas_from_suspend
resumes st idle b = refl
resumes st runnable b = refl
resumes st running b = refl
resumes st waiting b = refl
resumes st preempted b = refl
resumes st dead b = refl

-- What a caller that holds the bit does, never fails.
pub next-done :
    (p : Phase) (s : ThreadStatus) (b : Bool)
    → holds p ≡ true
    → Held p s
    → is_done (suspend_next p (record { status = s; preempt_stop = b })) ≡ true
unfolding suspend_next cas_from_suspend
next-done (requested st) s b h k =
    subst
      (λ x. is_done (suspend_next (requested st) (record { status = x; preempt_stop = b })) ≡ true)
      (sym k) refl
next-done (owns st) s b h k = refl
next-done (resuming st (suspend x)) s b h k =
    subst
      (λ y.
        is_done (suspend_next (resuming st (suspend x)) (record { status = y; preempt_stop = b }))
        ≡ true)
      k.0 (resumes st x b)
next-done (resuming st (plain x)) s b h k =
    let z : false ≡ true = ap is_suspended k.0 ∙ k.1 in ground arith
next-done outside s b h k = ground arith
next-done gone s b h k = ground arith
next-done (looping c) s b h k = ground arith
next-done (loaded c x) s b h k = ground arith
next-done (suspending c x) s b h k = ground arith
next-done readying s b h k = ground arith
