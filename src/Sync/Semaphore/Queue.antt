-- ===== src/Sync/Semaphore/Queue.antt =====
-- The queue of a semaphore against the list of its waiters.
use pentagon.Prelude.{
  is_some, subst, ◌≡◌, ◌≢◌, refl, sym, ap, ◌∙◌, Bool, true, false, Option, none, some, List, [],
  ◌∷◌, ◌++◌, if◌then◌else◌, update, update_self, update-ne, NotIn, Distinct, Distinct-append,
  Apart-single,
}
use pentagon.Sync.Semaphore.{
  WaitingRef, Links, or_else, queue_front, queue_back, semaphore_queue, dequeue_next,
  semaphore_dequeue,
}

-- The entries behind `t`, linked to the end.
abbrev pub Linked : (WaitingRef → Option WaitingRef) → WaitingRef → List WaitingRef → Type 0
Linked link t [] = link t ≡ none
Linked link t (x ∷ xs) = (link t ≡ some x) × Linked link x xs

-- The last of the entries behind the first one.
abbrev pub tail_of : List WaitingRef → Option WaitingRef
tail_of [] = none
tail_of (x ∷ []) = some x
tail_of (_ ∷ y ∷ ys) = tail_of (y ∷ ys)

pub record Queued (l : Links) (t : WaitingRef) (xs : List WaitingRef) : Type 0 where
  pub linked : Linked l.wait_link t xs
  pub tail : l.wait_tail t ≡ tail_of xs
  pub distinct : Distinct (t ∷ xs)

-- `waiters` leads to the entries of the list.
abbrev pub Waiting : Links → Option WaitingRef → List WaitingRef → Type 0
Waiting l w [] = w ≡ none
Waiting l w (t ∷ xs) = (w ≡ some t) × Queued l t xs

last-cons :
    (t y : WaitingRef) (ys : List WaitingRef)
    → or_else (tail_of (y ∷ ys)) t ≡ or_else (tail_of ys) y
last-cons t y [] = refl
last-cons t y (z ∷ []) = refl
last-cons t y (z ∷ x ∷ xs) = last-cons t z (x ∷ xs) ∙ sym (last-cons y z (x ∷ xs))

last-ne : (t y : WaitingRef) (ys : List WaitingRef) → NotIn t (y ∷ ys) → or_else (tail_of ys) y ≢ t
last-ne t y [] h = h.0
last-ne t y (z ∷ []) h = h.1.0
last-ne t y (z ∷ x ∷ xs) h = λ e. last-ne t z (x ∷ xs) h.1 (sym (last-cons y z (x ∷ xs)) ∙ e)

tail_of-cons :
    (t : WaitingRef) (xs : List WaitingRef) → tail_of (t ∷ xs) ≡ some (or_else (tail_of xs) t)
tail_of-cons t [] = refl
tail_of-cons t (x ∷ xs) = tail_of-cons x xs ∙ ap some (sym (last-cons t x xs))

tail_of-snoc : (xs : List WaitingRef) (a : WaitingRef) → tail_of (xs ++ (a ∷ [])) ≡ some a
tail_of-snoc [] a = refl
tail_of-snoc (x ∷ []) a = refl
tail_of-snoc (x ∷ y ∷ ys) a = tail_of-snoc (y ∷ ys) a

Linked-update :
    (link : WaitingRef → Option WaitingRef) (a t : WaitingRef) (v : Option WaitingRef)
    (xs : List WaitingRef)
    → NotIn a (t ∷ xs)
    → Linked link t xs
    → Linked (update link a v) t xs
Linked-update link a t v [] h c = update-ne link a t v (λ e. h.0 (sym e)) ∙ c
Linked-update link a t v (x ∷ xs) h c =
    (update-ne link a t v (λ e. h.0 (sym e)) ∙ c.0, Linked-update link a x v xs h.1 c.1)

-- The last entry is linked to a new one.
Linked-snoc :
    (link : WaitingRef → Option WaitingRef) (t wt : WaitingRef) (xs : List WaitingRef)
    → NotIn wt (t ∷ xs)
    → Distinct (t ∷ xs)
    → Linked link t xs
    → Linked (update (update link (or_else (tail_of xs) t) (some wt)) wt none) t (xs ++ (wt ∷ []))
Linked-snoc link t wt [] h d c = (
  update-ne (update link t (some wt)) wt t none (λ e. h.0 (sym e)) ∙ update_self link t (some wt),
  update_self (update link t (some wt)) wt none,
)
Linked-snoc link t wt (x ∷ xs) h d c =
    let z = or_else (tail_of xs) x in
    let same : or_else (tail_of (x ∷ xs)) t ≡ z = last-cons t x xs in
    subst (λ y. Linked (update (update link y (some wt)) wt none) t ((x ∷ xs) ++ (wt ∷ [])))
      (sym same)
      (
        update-ne (update link z (some wt)) wt t none (λ e. h.0 (sym e))
            ∙ update-ne link z t (some wt) (last-ne t x xs d.0)
            ∙ c.0,
        Linked-snoc link x wt xs h.1 d.1 c.1,
      )

queue_back-Queued :
    (l : Links) (t wt : WaitingRef) (xs : List WaitingRef)
    → Queued l t xs
    → NotIn wt (t ∷ xs)
    → Queued (queue_back l wt t) t (xs ++ (wt ∷ []))
unfolding queue_back
queue_back-Queued l t wt xs q h = record {
  linked = rw q.tail (Linked-snoc l.wait_link t wt xs h q.distinct q.linked);
  tail = update_self l.wait_tail t (some wt) ∙ sym (tail_of-snoc xs wt);
  distinct = Distinct-append (t ∷ xs) (wt ∷ []) q.distinct (tt, tt) (Apart-single (t ∷ xs) wt h);
}

queue_front-Queued :
    (l : Links) (t wt : WaitingRef) (xs : List WaitingRef)
    → Queued l t xs
    → NotIn wt (t ∷ xs)
    → Queued (queue_front l wt t) wt (t ∷ xs)
unfolding queue_front
queue_front-Queued l t wt xs q h = record {
  linked =
      (update_self l.wait_link wt (some t), Linked-update l.wait_link wt t (some t) xs h q.linked);
  tail =
      update-ne (update l.wait_tail wt (some (or_else (l.wait_tail t) t))) t wt none h.0
      ∙ update_self l.wait_tail wt (some (or_else (l.wait_tail t) t))
      ∙ ap (λ o. some (or_else o t)) q.tail
      ∙ sym (tail_of-cons t xs);
  distinct = (h, q.distinct);
}

-- A fresh entry is in no list.
abbrev pub IsFresh : Links → WaitingRef → Type 0
IsFresh l wt = (l.wait_link wt ≡ none) × (l.wait_tail wt ≡ none)

abbrev pub joined : Bool → WaitingRef → List WaitingRef → List WaitingRef
joined true wt xs = wt ∷ xs
joined false wt xs = xs ++ (wt ∷ [])

-- A fresh entry that is not in the list joins the waiters, in front or behind.
pub semaphore_queue-Waiting :
    (l : Links) (w : Option WaitingRef) (wt : WaitingRef) (lifo : Bool) (xs : List WaitingRef)
    → Waiting l w xs
    → IsFresh l wt
    → NotIn wt xs
    → let r = semaphore_queue l w wt lifo in Waiting r.0 r.1 (joined lifo wt xs)
unfolding semaphore_queue
semaphore_queue-Waiting l w wt true [] v f h =
    rw v (refl, record { linked = f.0; tail = f.1; distinct = (tt, tt) })
semaphore_queue-Waiting l w wt false [] v f h =
    rw v (refl, record { linked = f.0; tail = f.1; distinct = (tt, tt) })
semaphore_queue-Waiting l w wt true (t ∷ xs) v f h =
    rw (v.0) (refl, queue_front-Queued l t wt xs v.1 h)
semaphore_queue-Waiting l w wt false (t ∷ xs) v f h =
    rw (v.0) (refl, queue_back-Queued l t wt xs v.1 h)

-- What a dequeue leaves: the first waiter, if any, has left the list and is fresh again.
abbrev pub Popped : List WaitingRef → Option WaitingRef × Links × Option WaitingRef → Type 0
Popped [] r = (r.0 ≡ none) × Waiting r.1 r.2 []
Popped (t ∷ xs) r = (r.0 ≡ some t) × Waiting r.1 r.2 xs × IsFresh r.1 t × (r.1.ticket t ≡ 0)

-- What the second entry gets as its `wait_tail`.
new_tail :
    (l : Links) (wt t : WaitingRef) (xs : List WaitingRef)
    → Queued l wt (t ∷ xs)
    → (if is_some (l.wait_link t) then l.wait_tail wt else none) ≡ tail_of xs
new_tail l wt t [] q = ap (λ o. if is_some o then l.wait_tail wt else none) q.linked.1
new_tail l wt t (x ∷ xs) q =
    ap (λ o. if is_some o then l.wait_tail wt else none) q.linked.1.0 ∙ q.tail

dequeue_next-Queued :
    (l : Links) (wt t : WaitingRef) (xs : List WaitingRef)
    → Queued l wt (t ∷ xs)
    → let r = dequeue_next l wt (some t) in
      Waiting r.0 r.1 (t ∷ xs) × IsFresh r.0 wt × (r.0.ticket wt ≡ 0)
unfolding dequeue_next
dequeue_next-Queued l wt t xs q =
    let v = if is_some (l.wait_link t) then l.wait_tail wt else none in
    (
      (
        refl,
        record {
          linked = Linked-update l.wait_link wt t none xs q.distinct.0 q.linked.1;
          tail =
              update-ne (update l.wait_tail t v) wt t none (λ e. q.distinct.0.0 (sym e))
              ∙ update_self l.wait_tail t v
              ∙ new_tail l wt t xs q;
          distinct = q.distinct.1;
        },
      ),
      (update_self l.wait_link wt none, update_self (update l.wait_tail t v) wt none),
      update_self (update l.ticket t (l.ticket wt)) wt 0,
    )

dequeue-Popped :
    (l : Links) (wt : WaitingRef) (xs : List WaitingRef)
    → Queued l wt xs
    → let r = dequeue_next l wt (l.wait_link wt) in
      Waiting r.0 r.1 xs × IsFresh r.0 wt × (r.0.ticket wt ≡ 0)
unfolding dequeue_next
dequeue-Popped l wt [] q =
    subst
      (λ o.
        let r = dequeue_next l wt o in Waiting r.0 r.1 [] × IsFresh r.0 wt × (r.0.ticket wt ≡ 0))
      (sym q.linked) (refl, (q.linked, q.tail), update_self l.ticket wt 0)
dequeue-Popped l wt (t ∷ xs) q =
    subst
      (λ o.
        let r = dequeue_next l wt o in
        Waiting r.0 r.1 (t ∷ xs) × IsFresh r.0 wt × (r.0.ticket wt ≡ 0))
      (sym q.linked.0) (dequeue_next-Queued l wt t xs q)

-- `semaphore_dequeue` takes the first waiter out of the list, which keeps the others in order, and
-- returns it, ready to be queued again; with no waiters it returns none.
pub semaphore_dequeue-Popped :
    (l : Links) (w : Option WaitingRef) (xs : List WaitingRef)
    → Waiting l w xs
    → Popped xs (semaphore_dequeue l w)
unfolding semaphore_dequeue
semaphore_dequeue-Popped l w [] v =
    subst (λ o. Popped [] (semaphore_dequeue l o)) (sym v) (refl, refl)
semaphore_dequeue-Popped l w (t ∷ xs) v =
    subst (λ o. Popped (t ∷ xs) (semaphore_dequeue l o)) (sym v.0)
      (let (a, b, c) = dequeue-Popped l t xs v.1 in (refl, a, b, c))
