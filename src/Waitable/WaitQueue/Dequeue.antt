-- ===== src/Waitable/WaitQueue/Dequeue.antt =====
-- `wait_queue_dequeue` against the list of the entries.
use pentagon.Prelude.{
  ℕ, zero, suc, ◌<◌, ◌≡◌, inl, inr, refl, sym, ap, subst, ◌∙◌, arith, Bool, true, false, Bool-cases,
  Option, none, some, List, [], ◌∷◌, if◌then◌else◌, update, update-ne, update_self, length, NotIn,
}
use pentagon.Waitable.WaitQueue.{
  WaitingRef, ThreadRef, Store, WaitQueue, unlink_first, wins, claim, claim_if, dequeue_round,
  wait_queue_dequeue,
}
use pentagon.Waitable.WaitQueue.Refine.{IsQueue}
use pentagon.Waitable.WaitQueue.Segments.{first_of, Segment-next, Segment-refirst}

-- The entry that wakes its thread, and the entries behind it.
unfoldable pub winner : Store → List WaitingRef → Option WaitingRef × List WaitingRef
winner s [] = (none, [])
winner s (x ∷ xs) = let rest = winner s xs in if wins s x then (some x, xs) else rest

abbrev pub done_after : Store → Option WaitingRef → ThreadRef → ℕ
done_after s none = s.select_done
done_after s (some x) = (claim s x).select_done

-- What a dequeue from the list answers and leaves.
pub record Dequeued (s : Store) (xs : List WaitingRef) (r : Option WaitingRef × Store × WaitQueue)
    : Type 0 where
  pub answer : r.0 ≡ (winner s xs).0
  pub rest : IsQueue r.1 r.2 (winner s xs).1
  pub done : r.1.select_done ≡ done_after s r.0
  pub kept : (a : WaitingRef) → NotIn a xs → (r.1.next a ≡ s.next a) × (r.1.prev a ≡ s.prev a)
  pub thread : r.1.thread ≡ s.thread
  pub is_select : r.1.is_select ≡ s.is_select
  pub sched_link : r.1.sched_link ≡ s.sched_link
  pub success : r.1.success ≡ s.success
  pub single : (x : WaitingRef) → r.0 ≡ some x → (r.1.next x ≡ none) × (r.1.prev x ≡ none)

-- What unlinking the first entry leaves.
record Unlinked (s : Store) (x : WaitingRef) (xs : List WaitingRef) (r : Store × WaitQueue)
    : Type 0 where
  rest : IsQueue r.0 r.1 xs
  next : r.0.next x ≡ none
  prev : r.0.prev x ≡ none
  thread : r.0.thread ≡ s.thread
  is_select : r.0.is_select ≡ s.is_select
  sched_link : r.0.sched_link ≡ s.sched_link
  success : r.0.success ≡ s.success
  select_done : r.0.select_done ≡ s.select_done
  kept : (a : WaitingRef) → NotIn a (x ∷ xs) → (r.0.next a ≡ s.next a) × (r.0.prev a ≡ s.prev a)

unlink_first-Unlinked :
    (s : Store) (q : WaitQueue) (x : WaitingRef) (xs : List WaitingRef)
    → IsQueue s q (x ∷ xs)
    → Unlinked s x xs (unlink_first s q x (first_of xs none))
unfolding unlink_first
unlink_first-Unlinked s q x [] v = record {
  rest = record { segment = tt; first = refl; last = refl; distinct = tt };
  next = v.segment.1;
  prev = v.segment.0;
  thread = refl;
  is_select = refl;
  sched_link = refl;
  success = refl;
  select_done = refl;
  kept = λ a h. (refl, refl);
}
unlink_first-Unlinked s q x (y ∷ ys) v =
    let out = v.distinct.0 in
    record {
      rest = record {
        segment =
            Segment-next s.next (update s.prev y none) x none none (y ∷ ys) none out
              (Segment-refirst s.next s.prev (some x) y ys none none v.distinct.1.0 v.segment.2);
        first = refl;
        last = v.last;
        distinct = v.distinct.1;
      };
      next = update_self s.next x none;
      prev = update-ne s.prev y x none out.0 ∙ v.segment.0;
      thread = refl;
      is_select = refl;
      sched_link = refl;
      success = refl;
      select_done = refl;
      kept = λ a h. (update-ne s.next x a none h.0, update-ne s.prev y a none h.1.0);
    }

-- The winner depends on three fields of the store only.
winner-agree :
    (s s' : Store) (xs : List WaitingRef)
    → s'.thread ≡ s.thread
    → s'.is_select ≡ s.is_select
    → s'.select_done ≡ s.select_done
    → winner s' xs ≡ winner s xs
unfolding winner
winner-agree s s' [] t i d = refl
winner-agree s s' (x ∷ xs) t i d = rw (winner-agree s s' xs t i d, t, i, d)

claim_if-IsQueue :
    (s : Store) (x : WaitingRef) (b : Bool) (q : WaitQueue) (xs : List WaitingRef)
    → IsQueue s q xs
    → IsQueue (claim_if s x b) q xs
claim_if-IsQueue s x false q xs v = v
claim_if-IsQueue s x true q xs v = record {
  segment = v.segment;
  first = v.first;
  last = v.last;
  distinct = v.distinct;
}

claim_if-links :
    (s : Store) (x : WaitingRef) (b : Bool)
    → ((claim_if s x b).next ≡ s.next)
      × ((claim_if s x b).prev ≡ s.prev)
      × ((claim_if s x b).thread ≡ s.thread)
      × ((claim_if s x b).is_select ≡ s.is_select)
      × ((claim_if s x b).sched_link ≡ s.sched_link)
      × ((claim_if s x b).success ≡ s.success)
claim_if-links s x false = (refl, refl, refl, refl, refl, refl)
claim_if-links s x true = (refl, refl, refl, refl, refl, refl)

claim_if-select_done :
    (s s' : Store) (x : WaitingRef) (b : Bool)
    → s'.thread ≡ s.thread
    → s'.select_done ≡ s.select_done
    → (claim_if s' x b).select_done ≡ (claim_if s x b).select_done
claim_if-select_done s s' x false t d = d
claim_if-select_done s s' x true t d = rw (t, d)

done_after-agree :
    (s s' : Store) (o : Option WaitingRef)
    → s'.thread ≡ s.thread
    → s'.is_select ≡ s.is_select
    → s'.select_done ≡ s.select_done
    → done_after s' o ≡ done_after s o
done_after-agree s s' none t i d = d
done_after-agree s s' (some x) t i d =
    claim_if-select_done s s' x (s'.is_select x) t d ∙ ap (λ g. (claim_if s x (g x)).select_done) i

pub wait_queue_dequeue-nil :
    (f : ℕ) (s : Store) (q : WaitQueue)
    → q.first ≡ none
    → wait_queue_dequeue (suc f) s q ≡ (none, s, q)
unfolding wait_queue_dequeue dequeue_round
wait_queue_dequeue-nil f s q e = ap (λ h. dequeue_round s q h (wait_queue_dequeue f)) e

wait_queue_dequeue-some :
    (f : ℕ) (s : Store) (q : WaitQueue) (x : WaitingRef) (e : Option WaitingRef) (b : Bool)
    → q.first ≡ some x
    → s.next x ≡ e
    → let (s1, q1) = unlink_first s q x e in
      wins s1 x ≡ b
      → wait_queue_dequeue (suc f) s q
        ≡ (if b then (some x, claim s1 x, q1) else wait_queue_dequeue f s1 q1)
unfolding wait_queue_dequeue dequeue_round
wait_queue_dequeue-some f s q x e b first next won =
    let again = wait_queue_dequeue f in
    let (s1, q1) = unlink_first s q x e in
    let round = λ (r : Store × WaitQueue).
      if wins r.0 x then (some x, claim r.0 x, r.1) else wait_queue_dequeue f r.0 r.1 in
    ap (λ h. dequeue_round s q h again) first
    ∙ ap (λ n. round (unlink_first s q x n)) next
    ∙ ap (λ c. if c then (some x, claim s1 x, q1) else wait_queue_dequeue f s1 q1) won

won_Dequeued :
    (s : Store) (x : WaitingRef) (xs : List WaitingRef) (s1 : Store) (q1 : WaitQueue)
    → Unlinked s x xs (s1, q1)
    → wins s x ≡ true
    → Dequeued s (x ∷ xs) (some x, claim s1 x, q1)
unfolding winner
won_Dequeued s x xs s1 q1 u won =
    let links = claim_if-links s1 x (s1.is_select x) in
    record {
      answer = rw won refl;
      rest = rw won (claim_if-IsQueue s1 x (s1.is_select x) q1 xs u.rest);
      done = done_after-agree s s1 (some x) u.thread u.is_select u.select_done;
      kept = λ a h. rw (links.0, links.1) (u.kept a h);
      thread = links.2 ∙ u.thread;
      is_select = links.3 ∙ u.is_select;
      sched_link = links.4 ∙ u.sched_link;
      success = links.5 ∙ u.success;
      single = λ y e. let here : x ≡ y = cc in rw⁻¹ here (rw (links.0, links.1) (u.next, u.prev));
    }

lost_Dequeued :
    (s : Store) (x : WaitingRef) (xs : List WaitingRef) (s1 : Store) (q1 : WaitQueue)
    (r : Option WaitingRef × Store × WaitQueue)
    → Unlinked s x xs (s1, q1)
    → wins s x ≡ false
    → Dequeued s1 xs r
    → Dequeued s (x ∷ xs) r
unfolding winner
lost_Dequeued s x xs s1 q1 r u lost d =
    let same = winner-agree s s1 xs u.thread u.is_select u.select_done in
    record {
      answer = rw lost (d.answer ∙ ap (λ r. r.0) same);
      rest = rw (lost, sym same) d.rest;
      done = d.done ∙ done_after-agree s s1 r.0 u.thread u.is_select u.select_done;
      kept = λ a h.
          let below = d.kept a h.1 in let here = u.kept a h in (below.0 ∙ here.0, below.1 ∙ here.1);
      thread = d.thread ∙ u.thread;
      is_select = d.is_select ∙ u.is_select;
      sched_link = d.sched_link ∙ u.sched_link;
      success = d.success ∙ u.success;
      single = d.single;
    }

-- With fuel above its length, `wait_queue_dequeue` drops the entries of a queue up to the first one
-- that wakes its thread, returns that one unlinked and marks its select as done.
pub wait_queue_dequeue-Dequeued :
    (f : ℕ) (s : Store) (q : WaitQueue) (xs : List WaitingRef)
    → IsQueue s q xs
    → length xs < f
    → Dequeued s xs (wait_queue_dequeue f s q)
unfolding winner
wait_queue_dequeue-Dequeued zero s q xs v lt = absurd (omega arith)
wait_queue_dequeue-Dequeued (suc f) s q [] v lt =
    subst (Dequeued s []) (sym (wait_queue_dequeue-nil f s q v.first)) (record {
      answer = refl;
      rest = v;
      done = refl;
      kept = λ a h. (refl, refl);
      thread = refl;
      is_select = refl;
      sched_link = refl;
      success = refl;
      single = λ x e. cc;
    })
wait_queue_dequeue-Dequeued (suc f) s q (x ∷ xs) v lt =
    let u = unlink_first-Unlinked s q x xs v in
    let (s1, q1) = unlink_first s q x (first_of xs none) in
    let same : wins s1 x ≡ wins s x = rw (u.is_select, u.thread, u.select_done) refl in
    let step = λ (b : Bool) (won : wins s x ≡ b).
      wait_queue_dequeue-some f s q x (first_of xs none) b v.first v.segment.1 (same ∙ won) in
    elim (Bool-cases (wins s x)) [
      | inl won ↦
          subst (Dequeued s (x ∷ xs)) (sym (step true won)) (won_Dequeued s x xs s1 q1 u won)
      | inr lost ↦ subst (Dequeued s (x ∷ xs)) (sym (step false lost)) (
          lost_Dequeued s x xs s1 q1 (wait_queue_dequeue f s1 q1) u lost
            (wait_queue_dequeue-Dequeued f s1 q1 xs u.rest (omega arith)))
    ]
