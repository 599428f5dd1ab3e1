-- ===== src/Waitable/Channel/Valid.antt =====
-- When a waitable is well formed, with the lists of the threads that wait and that send.
use pentagon.Prelude.{
  ◌≤◌, ◌≡◌, ◌⊎◌, inl, inr, refl, ap, true, Bool-cases, Option, none, some, List, [], ◌∷◌, ◌++◌,
  NotIn, Apart, Apart-nil,
}
use pentagon.Waitable.WaitQueue.{WaitingRef, ThreadRef, Store, WaitQueue, wins, wait_queue_enqueue}
use pentagon.Waitable.WaitQueue.Segments.{Segment-agree}
use pentagon.Waitable.WaitQueue.Refine.{
  IsQueue, wait_queue_enqueue-IsQueue, wait_queue_enqueue-kept,
}
use pentagon.Waitable.WaitQueue.Dequeue.{winner, Dequeued}
use pentagon.Waitable.Channel.{Waitable, with_thread}

-- The two queues are apart. Somebody waits only while there is no token, and sends only while there
-- is no room; after the close nobody does.
pub record IsValid (w : Waitable) (ws ss : List WaitingRef) : Type 0 where
  pub waiting : IsQueue w.store w.wait_queue ws
  pub sending : IsQueue w.store w.send_queue ss
  pub apart : Apart ws ss
  pub bounded : w.count ≤ w.size
  pub no_token : (ws ≡ []) ⊎ (w.count ≡ 0)
  pub no_room : (ss ≡ []) ⊎ (w.count ≡ w.size)
  pub after_close : w.closed ≡ true → (ws ≡ []) × (ss ≡ [])

-- A queue whose entries are not touched stays.
pub IsQueue-agree :
    (s s' : Store) (q : WaitQueue) (ys xs : List WaitingRef)
    → ((a : WaitingRef) → NotIn a xs → (s'.next a ≡ s.next a) × (s'.prev a ≡ s.prev a))
    → Apart ys xs
    → IsQueue s q ys
    → IsQueue s' q ys
IsQueue-agree s s' q ys xs same apart v = record {
  segment = Segment-agree s.next s.prev s'.next s'.prev none ys xs none same apart v.segment;
  first = v.first;
  last = v.last;
  distinct = v.distinct;
}

pub NotIn-winner :
    (s : Store) (a : WaitingRef) (xs : List WaitingRef) → NotIn a xs → NotIn a (winner s xs).1
unfolding winner
NotIn-winner s a [] h = tt
NotIn-winner s a (x ∷ xs) h = elim (Bool-cases (wins s x)) [
  | inl e ↦ rw e h.1
  | inr e ↦ rw e (NotIn-winner s a xs h.1)
]

-- What is left behind the winner is apart from what the queue is apart from.
pub Apart-winner : (s : Store) (ys xs : List WaitingRef) → Apart ys xs → Apart ys (winner s xs).1
Apart-winner s [] xs h = tt
Apart-winner s (y ∷ ys) xs h = (NotIn-winner s y xs h.0, Apart-winner s ys xs h.1)

pub IsQueue-same :
    (s s' : Store) (q : WaitQueue) (ys : List WaitingRef)
    → s'.next ≡ s.next
    → s'.prev ≡ s.prev
    → IsQueue s q ys
    → IsQueue s' q ys
IsQueue-same s s' q ys n b v =
    IsQueue-agree s s' q ys [] (λ a h. (ap (λ g. g a) n, ap (λ g. g a) b)) (Apart-nil ys) v

-- No winner, no entry left.
pub winner-none : (s : Store) (xs : List WaitingRef) → (winner s xs).0 ≡ none → (winner s xs).1 ≡ []
unfolding winner
winner-none s [] e = refl
winner-none s (x ∷ xs) e = elim (Bool-cases (wins s x)) [
  | inl won ↦ let h : some x ≡ none = rw won at e in cc
  | inr lost ↦ rw lost (winner-none s xs (rw lost at e))
]

-- An entry that is in neither queue is put into one of them, `q`.
pub park-IsQueue :
    (s : Store) (q other : WaitQueue) (xs ys : List WaitingRef) (me : ThreadRef) (wt : WaitingRef)
    → IsQueue s q xs
    → IsQueue s other ys
    → NotIn wt xs
    → Apart ys (xs ++ (wt ∷ []))
    → let r = wait_queue_enqueue (with_thread s wt me) q wt in
      IsQueue r.0 r.1 (xs ++ (wt ∷ [])) × IsQueue r.0 other ys
park-IsQueue s q other xs ys me wt v v' fresh apart =
    let t = with_thread s wt me in
    let here : IsQueue t q xs = IsQueue-same s t q xs refl refl v in
    (
      wait_queue_enqueue-IsQueue t q wt xs here fresh,
      IsQueue-agree s (wait_queue_enqueue t q wt).0 other ys (xs ++ (wt ∷ []))
          (λ a h. wait_queue_enqueue-kept t q wt xs a here h) apart v',
    )

-- A queue after a dequeue from the other one.
pub IsQueue-other :
    (s : Store) (xs ys : List WaitingRef) (r : Option WaitingRef × Store × WaitQueue)
    (q : WaitQueue)
    → Dequeued s xs r
    → Apart ys xs
    → IsQueue s q ys
    → IsQueue r.1 q ys
IsQueue-other s xs ys r q d apart v = IsQueue-agree s r.1 q ys xs d.kept apart v

pub winner-nil :
    (s : Store) (xs : List WaitingRef) {P : Type 0} → (xs ≡ []) ⊎ P → ((winner s xs).1 ≡ []) ⊎ P
unfolding winner
winner-nil s xs (inl e) = inl (ap (λ l. (winner s l).1) e)
winner-nil s xs (inr p) = inr p
