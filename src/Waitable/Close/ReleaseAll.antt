-- ===== src/Waitable/Close/ReleaseAll.antt =====
-- The loops of `waitable_close` against the list of the entries.
use pentagon.Prelude.{
  update, Bool, false, update_self, ℕ, zero, suc, ◌<◌, ◌≡◌, refl, sym, ap, subst, ◌∙◌, arith,
  Option, none, some, List, [], ◌∷◌, length, NotIn, Distinct,
}
use pentagon.Scheduler.ThreadQueue.Refine.{Chain, Chain-update}
use pentagon.Waitable.WaitQueue.{ThreadRef, WaitingRef, Store, WaitQueue, wait_queue_dequeue}
use pentagon.Waitable.WaitQueue.Refine.{IsQueue}
use pentagon.Waitable.WaitQueue.Dequeue.{winner, Dequeued, wait_queue_dequeue-Dequeued}
use pentagon.Waitable.Channel.Valid.{IsQueue-same, winner-none, NotIn-winner}
use pentagon.Waitable.Close.{fail_waiter, release_next, release_all}
use pentagon.Waitable.Close.Woken.{woken, woken-none, woken-some}

-- The threads of the entries, each put in front.
abbrev pub readied : (WaitingRef → ThreadRef) → List WaitingRef → List ThreadRef → List ThreadRef
readied thread [] ts = ts
readied thread (x ∷ xs) ts = readied thread xs (thread x ∷ ts)

pub readied-Distinct :
    (thread : WaitingRef → ThreadRef) (xs : List WaitingRef) (ts : List ThreadRef)
    → Distinct (readied thread xs ts)
    → Distinct ts
readied-Distinct thread [] ts d = d
readied-Distinct thread (x ∷ xs) ts d = (readied-Distinct thread xs (thread x ∷ ts) d).1

-- No entry of the list has been successful.
abbrev pub AllFail : (WaitingRef → Bool) → List WaitingRef → Type 0
AllFail success [] = Unit
AllFail success (x ∷ xs) = (success x ≡ false) × AllFail success xs

-- What emptying a queue leaves: the threads of the entries that wake them in front of `ts`.
pub record Released (s : Store) (xs : List WaitingRef) (ts : List ThreadRef)
    (r : Store × WaitQueue × Option ThreadRef) : Type 0 where
  pub rest : IsQueue r.0 r.1 []
  pub chain :
      Chain r.0.sched_link r.2 (readied s.thread (woken s.thread s.is_select s.select_done xs).0 ts)
  pub done : r.0.select_done ≡ (woken s.thread s.is_select s.select_done xs).1
  pub kept : (a : WaitingRef) → NotIn a xs → (r.0.next a ≡ s.next a) × (r.0.prev a ≡ s.prev a)
  pub thread : r.0.thread ≡ s.thread
  pub is_select : r.0.is_select ≡ s.is_select
  pub failed : AllFail r.0.success (woken s.thread s.is_select s.select_done xs).0
  pub still : (a : WaitingRef) → s.success a ≡ false → r.0.success a ≡ false

update-false : (g : WaitingRef → Bool) (x a : WaitingRef) → g a ≡ false → update g x false a ≡ false
update-false g x a h = ground (arith, h)

-- The entries behind the winner, from the store that the dequeue left.
woken_after :
    (s : Store) (xs : List WaitingRef) (x : WaitingRef) (s1 : Store) (q1 : WaitQueue)
    → Dequeued s xs (some x, s1, q1)
    → let r = woken s1.thread s1.is_select s1.select_done (winner s xs).1 in
      woken s.thread s.is_select s.select_done xs ≡ (x ∷ r.0, r.1)
woken_after s xs x s1 q1 d = rw (d.thread, d.is_select, d.done) (woken-some s x xs (sym d.answer)).0

-- The rest of the loop does its work on every shorter queue.
abbrev Releases :
    (Store → WaitQueue → Option ThreadRef → Store × WaitQueue × Option ThreadRef) → ℕ → Type 0
Releases again n =
    (s : Store) (q : WaitQueue) (threads : Option ThreadRef) (xs : List WaitingRef)
    (ts : List ThreadRef)
    → IsQueue s q xs
    → length xs < n
    → Chain s.sched_link threads ts
    → Distinct (readied s.thread (woken s.thread s.is_select s.select_done xs).0 ts)
    → Released s xs ts (again s q threads)

release_next-Released :
    (s : Store) (xs : List WaitingRef) (ts : List ThreadRef) (threads : Option ThreadRef)
    (again : Store → WaitQueue → Option ThreadRef → Store × WaitQueue × Option ThreadRef)
    (r : Option WaitingRef × Store × WaitQueue)
    → Releases again (length xs)
    → Dequeued s xs r
    → Chain s.sched_link threads ts
    → Distinct (readied s.thread (woken s.thread s.is_select s.select_done xs).0 ts)
    → Released s xs ts (release_next again threads r)
unfolding release_next
release_next-Released s xs ts threads again (none, s1, q1) ih d c apart =
    let nobody = woken-none s xs (sym d.answer) in
    record {
      rest = subst (IsQueue s1 q1) (winner-none s xs (sym d.answer)) d.rest;
      chain = rw (nobody, d.sched_link) c;
      done = rw nobody d.done;
      kept = d.kept;
      thread = d.thread;
      is_select = d.is_select;
      failed = rw nobody tt;
      still = λ a h. rw d.success h;
    }
release_next-Released s xs ts threads again (some x, s1, q1) ih d c apart =
    let e = woken_after s xs x s1 q1 d in
    let s2 = fail_waiter s1 x threads in
    let back = (woken s1.thread s1.is_select s1.select_done (winner s xs).1).0 in
    let t = s1.thread x in
    let same : readied s.thread (woken s.thread s.is_select s.select_done xs).0 ts
        ≡ readied s1.thread back (t ∷ ts) =
      ap (λ (w : List WaitingRef × (ThreadRef → ℕ)). readied s.thread w.0 ts) e
      ∙ ap (λ (g : WaitingRef → ThreadRef). readied g back (g x ∷ ts)) (sym d.thread) in
    let apart' = subst Distinct same apart in
    let kept : Chain s2.sched_link threads ts =
      Chain-update s1.sched_link t threads threads ts
        (readied-Distinct s1.thread back (t ∷ ts) apart').0 (rw d.sched_link c) in
    let here : Chain s2.sched_link (some t) (t ∷ ts) =
      (refl, rw (update_self s1.sched_link t threads) kept) in
    let r =
      ih s2 q1 (some (s1.thread x)) (winner s xs).1 (s1.thread x ∷ ts)
        (IsQueue-same s1 s2 q1 (winner s xs).1 refl refl d.rest)
        (woken-some s x xs (sym d.answer)).1 here apart' in
    record {
      rest = r.rest;
      chain =
          subst
            (Chain (release_next again threads (some x, s1, q1)).0.sched_link
              (release_next again threads (some x, s1, q1)).2)
            (sym same) r.chain;
      done = r.done ∙ sym (ap (λ w. w.1) e);
      kept = λ a h.
          let above = r.kept a (NotIn-winner s a xs h) in
          let below = d.kept a h in (above.0 ∙ below.0, above.1 ∙ below.1);
      thread = r.thread ∙ d.thread;
      is_select = r.is_select ∙ d.is_select;
      failed =
          subst
            (λ (w : List WaitingRef × (ThreadRef → ℕ)).
              AllFail (release_next again threads (some x, s1, q1)).0.success w.0)
            (sym e) (r.still x (update_self s1.success x false), r.failed);
      still = λ a h. r.still a (update-false s1.success x a (rw d.success h));
    }

-- With fuel above its length, the loop empties the queue.
pub release_all-Released :
    (f g : ℕ) (s : Store) (q : WaitQueue) (threads : Option ThreadRef) (xs : List WaitingRef)
    (ts : List ThreadRef)
    → IsQueue s q xs
    → length xs < f
    → length xs < g
    → Chain s.sched_link threads ts
    → Distinct (readied s.thread (woken s.thread s.is_select s.select_done xs).0 ts)
    → Released s xs ts (release_all f g s q threads)
unfolding release_all
release_all-Released zero g s q threads xs ts v lt lt' c d = absurd (omega (arith, lt))
release_all-Released (suc f) g s q threads xs ts v lt lt' c d =
    release_next-Released s xs ts threads (release_all f g) (wait_queue_dequeue g s q)
      (λ s' q' threads' xs' ts' v' less c' d'.
        release_all-Released f g s' q' threads' xs' ts' v' (omega (arith, less, lt))
          (omega (arith, less, lt')) c' d')
      (wait_queue_dequeue-Dequeued g s q xs v lt') c d
