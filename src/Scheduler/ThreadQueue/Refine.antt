-- ===== src/Scheduler/ThreadQueue/Refine.antt =====
-- `thread_queue_t` against the list of its threads.
use pentagon.Prelude.{
  ◌≡◌, ◌≢◌, refl, sym, sym, subst, ◌∙◌, Option, none, some, List, [], ◌∷◌, ◌++◌, arith, update,
  last?, last?-append, first?, Apart-symm, NotIn, Distinct, Apart, Distinct-append, Apart-single,
  append-nil,
}
use pentagon.Scheduler.ThreadQueue.{
  Thread, Links, ThreadQueue, push_back_all, push_back, pop, head_after,
}

-- From the pointer `h` the links lead through the threads of the list to NULL.
abbrev pub Chain : Links → Option Thread → List Thread → Type 0
Chain l h [] = h ≡ none
Chain l h (t ∷ ts) = (h ≡ some t) × Chain l (l t) ts

pub record Holds (l : Links) (q : ThreadQueue) (ts : List Thread) : Type 0 where
  pub chain : Chain l q.head ts
  pub last : q.tail ≡ last? ts
  pub distinct : Distinct ts

-- A write to a thread that is not in the chain leaves the chain.
pub Chain-update :
    (l : Links) (a : Thread) (v h : Option Thread) (ts : List Thread)
    → NotIn a ts
    → Chain l h ts
    → Chain (update l a v) h ts
Chain-update l a v h [] n c = c
Chain-update l a v h (t ∷ ts) n c =
    let same : update l a v t ≡ l t = ground (arith, n.0) in
    (c.0, rw same (Chain-update l a v (l t) ts n.1 c.1))

pub last-ne : (a x : Thread) (ts : List Thread) → NotIn a ts → last? ts ≡ some x → a ≢ x
last-ne a x [] n e = λ _. cc
last-ne a x (t ∷ []) n e = λ f. n.0 (cc)
last-ne a x (t ∷ u ∷ ts) n e = last-ne a x (u ∷ ts) n.1 e

pub last?-cons : (t : Thread) (ts : List Thread) → (x : Thread) × (last? (t ∷ ts) ≡ some x)
last?-cons t [] = (t, refl)
last?-cons t (u ∷ ts) = last?-cons u ts

-- Two chains are joined by linking the last thread of the first to the head of the second.
pub Chain-append :
    (l : Links) (h : Option Thread) (x : Thread) (g : Option Thread) (xs ys : List Thread)
    → last? xs ≡ some x
    → Distinct xs
    → Apart xs ys
    → Chain l h xs
    → Chain l g ys
    → Chain (update l x g) h (xs ++ ys)
Chain-append l h x g [] ys e d p c k = cc
Chain-append l h x g (y ∷ []) ys e d p c k =
    let f : y ≡ x = cc in
    let same : update l x g y ≡ g = ground arith in
    (c.0, rw same (Chain-update l x g g ys (rw f at p.0) k))
Chain-append l h x g (y ∷ z ∷ xs) ys e d p c k =
    let same : update l x g y ≡ l y = ground (arith, last-ne y x (z ∷ xs) d.0 e) in
    (c.0, rw same (Chain-append l (l y) x g (z ∷ xs) ys e d.1 p.1 c.1 k))

-- A list holds its last element.
pub NotIn-last : (x : Thread) (xs ys : List Thread) → last? ys ≡ some x → Apart ys xs → NotIn x xs
NotIn-last x xs [] e p = cc
NotIn-last x xs (y ∷ []) e p = let f : y ≡ x = cc in rw f at p.0
NotIn-last x xs (y ∷ z ∷ ys) e p = NotIn-last x xs (z ∷ ys) e p.1

head_after-nil :
    (l : Links) (q : ThreadQueue) (h : Option Thread) → Holds l q [] → head_after q h ≡ h
head_after-nil l q h v = rw (v.last, head_after)

push_back-some :
    (l : Links) (q : ThreadQueue) (t x : Thread)
    → q.tail ≡ some x
    → push_back l q t
      ≡ (update (update l t none) x (some t), record { head = q.head; tail = some t })
unfolding push_back
push_back-some l q t x e = rw e

-- Pushing a thread that is not in the queue appends it.
pub push_back-Holds :
    (l : Links) (q : ThreadQueue) (t : Thread) (ts : List Thread)
    → Holds l q ts
    → NotIn t ts
    → Holds (push_back l q t).0 (push_back l q t).1 (ts ++ (t ∷ []))
unfolding push_back
push_back-Holds l q t [] v n = record {
  chain = rw (v.last) (refl, ground arith);
  last = refl;
  distinct = (tt, tt);
}
push_back-Holds l q t (y ∷ ys) v n =
    let (x, e) = last?-cons y ys in
    let apart : Apart (y ∷ ys) (t ∷ []) = Apart-single (y ∷ ys) t n in
    let kept : Chain (update l t none) q.head (y ∷ ys) =
      Chain-update l t none q.head (y ∷ ys) n v.chain in
    let done : Holds (update (update l t none) x (some t)) (record { head = q.head; tail = some t })
        ((y ∷ ys) ++ (t ∷ [])) =
      record {
        chain =
            Chain-append (update l t none) q.head x (some t) (y ∷ ys) (t ∷ []) e v.distinct apart
              kept (refl, ground arith);
        last = sym (last?-append (y ∷ ys) t []);
        distinct = Distinct-append (y ∷ ys) (t ∷ []) v.distinct (tt, tt) apart;
      } in
    subst (λ r. Holds r.0 r.1 ((y ∷ ys) ++ (t ∷ []))) (sym (push_back-some l q t x (v.last ∙ e)))
      done

-- Each thread of the list is linked to the one behind it.
abbrev pub Linked : Links → List Thread → Type 0
Linked l [] = Unit
Linked l (t ∷ []) = Unit
Linked l (t ∷ u ∷ ts) = (l t ≡ some u) × Linked l (u ∷ ts)

-- A queue whose last link is still open, as `push_back_all` takes it.
pub record Batch (l : Links) (q : ThreadQueue) (ts : List Thread) : Type 0 where
  pub first : q.head ≡ first? ts
  pub last : q.tail ≡ last? ts
  pub linked : Linked l ts
  pub distinct : Distinct ts

-- Ended by NULL, the batch is a chain.
Linked-Chain :
    (l : Links) (z : Thread) (t : Thread) (ts : List Thread)
    → last? (t ∷ ts) ≡ some z
    → Distinct (t ∷ ts)
    → Linked l (t ∷ ts)
    → Chain (update l z none) (some t) (t ∷ ts)
Linked-Chain l z t [] e d k = (refl, ground arith)
Linked-Chain l z t (u ∷ ts) e d k =
    let same : update l z none t ≡ some u = ground (arith, last-ne t z (u ∷ ts) d.0 e) in
    (refl, rw same (Linked-Chain l z u ts e d.1 k.1))

push_back_all-some :
    (l : Links) (q q2 : ThreadQueue) (x z : Thread)
    → q.tail ≡ some x
    → q2.tail ≡ some z
    → push_back_all l q q2
      ≡ (update (update l z none) x q2.head, record { head = q.head; tail = some z })
unfolding push_back_all
push_back_all-some l q q2 x z e f = rw (f, e)

push_back_all-none :
    (l : Links) (q q2 : ThreadQueue) (z : Thread)
    → q.tail ≡ none
    → q2.tail ≡ some z
    → push_back_all l q q2 ≡ (update l z none, record { head = q2.head; tail = some z })
unfolding push_back_all
push_back_all-none l q q2 z e f = rw (f, e)

-- Pushing all threads of a batch appends them in their order.
pub push_back_all-Holds :
    (l : Links) (q q2 : ThreadQueue) (ts us : List Thread)
    → Holds l q ts
    → Batch l q2 us
    → Apart ts us
    → Holds (push_back_all l q q2).0 (push_back_all l q q2).1 (ts ++ us)
push_back_all-Holds l q q2 ts [] v w p =
    let same : push_back_all l q q2 ≡ (l, q) = unfold push_back_all in rw (w.last) in
    rw (same, append-nil) v
push_back_all-Holds l q q2 [] (u ∷ us) v w p =
    let (z, f) = last?-cons u us in
    rw (push_back_all-none l q q2 z v.last (w.last ∙ f)) (record {
      chain = rw (w.first) (Linked-Chain l z u us f w.distinct w.linked);
      last = sym f;
      distinct = w.distinct;
    })
push_back_all-Holds l q q2 (y ∷ ys) (u ∷ us) v w p =
    let (x, e) = last?-cons y ys in
    let (z, f) = last?-cons u us in
    let p' = Apart-symm (y ∷ ys) (u ∷ us) p in
    let ended : Chain (update l z none) q2.head (u ∷ us) =
      rw (w.first) (Linked-Chain l z u us f w.distinct w.linked) in
    let kept : Chain (update l z none) q.head (y ∷ ys) =
      Chain-update l z none q.head (y ∷ ys) (NotIn-last z (y ∷ ys) (u ∷ us) f p') v.chain in
    rw (push_back_all-some l q q2 x z (v.last ∙ e) (w.last ∙ f)) (record {
      chain =
          Chain-append (update l z none) q.head x q2.head (y ∷ ys) (u ∷ us) e v.distinct p kept
            ended;
      last = sym (last?-append (y ∷ ys) u us ∙ f);
      distinct = Distinct-append (y ∷ ys) (u ∷ us) v.distinct w.distinct p;
    })

pub pop-nil : (l : Links) (q : ThreadQueue) → Holds l q [] → pop l q ≡ (none, q)
unfolding pop
pop-nil l q v = rw (v.chain)

-- Popping takes the first thread.
pub pop-Holds :
    (l : Links) (q : ThreadQueue) (t : Thread) (ts : List Thread)
    → Holds l q (t ∷ ts)
    → ((pop l q).0 ≡ some t) × Holds l (pop l q).1 ts
unfolding pop
pop-Holds l q t [] v =
    rw (v.chain.0) (refl, record { chain = v.chain.1; last = rw (v.chain.1); distinct = tt })
pop-Holds l q t (u ∷ us) v =
    rw (v.chain.0) (
      refl,
      record { chain = v.chain.1; last = rw (v.chain.1.0) (v.last); distinct = v.distinct.1 },
    )
