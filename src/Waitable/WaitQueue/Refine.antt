-- ===== src/Waitable/WaitQueue/Refine.antt =====
-- The wait queue against the list of its entries: enqueue.
use pentagon.Prelude.{
  ◌≡◌, ◌≢◌, inl, inr, refl, sym, ap, subst, ◌∙◌, arith, none, some, List, [], ◌∷◌, ◌++◌, update,
  update-ne, update_self, NotIn, NotIn-of_append, Distinct, Distinct-of_append, Distinct-append,
  Apart-single, Apart-symm,
}
use pentagon.Waitable.WaitQueue.{WaitingRef, Store, WaitQueue, enqueue_behind, wait_queue_enqueue}
use pentagon.Waitable.WaitQueue.Segments.{
  first_of, last_of, Segment, last_of-append, first_of-append, Segment-append, Segment-next,
  Segment-prev, Segment-relast, split_last,
}

pub record IsQueue (s : Store) (q : WaitQueue) (xs : List WaitingRef) : Type 0 where
  pub segment : Segment s.next s.prev none xs none
  pub first : q.first ≡ first_of xs none
  pub last : q.last ≡ last_of none xs
  pub distinct : Distinct xs

enqueue_behind-IsQueue :
    (s : Store) (q : WaitQueue) (wt : WaitingRef) (zs : List WaitingRef) (z : WaitingRef)
    → IsQueue s q (zs ++ (z ∷ []))
    → NotIn wt (zs ++ (z ∷ []))
    → let r = enqueue_behind s q wt (some z) in IsQueue r.0 r.1 ((zs ++ (z ∷ [])) ++ (wt ∷ []))
unfolding enqueue_behind
enqueue_behind-IsQueue s q wt zs z v h =
    let xs = zs ++ (z ∷ []) in
    let parts = Distinct-of_append zs (z ∷ []) v.distinct in
    let notin = NotIn-of_append wt zs (z ∷ []) h in
    let out : NotIn z zs = (Apart-symm zs (z ∷ []) parts.apart).0 in
    let n = update s.next wt none in
    let b = update s.prev wt (some z) in
    let kept =
      Segment-prev n s.prev wt (some z) none xs none h
        (Segment-next s.next s.prev wt none none xs none h v.segment) in
    let last : last_of none xs ≡ some z = last_of-append none zs (z ∷ []) in
    record {
      segment =
          Segment-append (update n z (some wt)) b none xs (wt ∷ []) none
            (Segment-relast n b none zs z none (some wt) out kept)
            (rw last (update_self s.prev wt (some z), ground (arith, notin.1.0), tt));
      first =
          v.first
          ∙ first_of-append zs (z ∷ []) none
          ∙ sym (first_of-append xs (wt ∷ []) none ∙ first_of-append zs (z ∷ []) (some wt));
      last = sym (last_of-append none xs (wt ∷ []));
      distinct = Distinct-append xs (wt ∷ []) v.distinct (tt, tt) (Apart-single xs wt h);
    }

enqueue_only-IsQueue :
    (s : Store) (q : WaitQueue) (wt : WaitingRef)
    → let r = enqueue_behind s q wt none in IsQueue r.0 r.1 (wt ∷ [])
unfolding enqueue_behind
enqueue_only-IsQueue s q wt = record {
  segment = (update_self s.prev wt none, update_self s.next wt none, tt);
  first = refl;
  last = refl;
  distinct = (tt, tt);
}

-- Enqueueing an entry that is not in the queue appends it.
pub wait_queue_enqueue-IsQueue :
    (s : Store) (q : WaitQueue) (wt : WaitingRef) (xs : List WaitingRef)
    → IsQueue s q xs
    → NotIn wt xs
    → let r = wait_queue_enqueue s q wt in IsQueue r.0 r.1 (xs ++ (wt ∷ []))
unfolding wait_queue_enqueue
wait_queue_enqueue-IsQueue s q wt xs v h = elim (split_last xs) [
  | inl e ↦
      let end : q.last ≡ none = v.last ∙ ap (last_of none) e in
      let alone = enqueue_only-IsQueue s q wt in
      rw e
        (subst (λ l. let r = enqueue_behind s q wt l in IsQueue r.0 r.1 (wt ∷ [])) (sym end) alone)
  | inr (zs, z, e) ↦
      let end : q.last ≡ some z = v.last ∙ ap (last_of none) e ∙ last_of-append none zs (z ∷ []) in
      let more = enqueue_behind-IsQueue s q wt zs z (rw e at v) (rw e at h) in
      rw e (
        subst
          (λ l. let r = enqueue_behind s q wt l in IsQueue r.0 r.1 ((zs ++ (z ∷ [])) ++ (wt ∷ [])))
          (sym end) more)
]

-- Enqueueing writes the links of the entry and of the last one only.
pub wait_queue_enqueue-kept :
    (s : Store) (q : WaitQueue) (wt : WaitingRef) (xs : List WaitingRef) (a : WaitingRef)
    → IsQueue s q xs
    → NotIn a (xs ++ (wt ∷ []))
    → let r = wait_queue_enqueue s q wt in (r.0.next a ≡ s.next a) × (r.0.prev a ≡ s.prev a)
unfolding wait_queue_enqueue enqueue_behind
wait_queue_enqueue-kept s q wt xs a v h =
    let far = NotIn-of_append a xs (wt ∷ []) h in
    let other : wt ≢ a = far.1.0 in
    elim (split_last xs) [
      | inl e ↦
          let end : q.last ≡ none = v.last ∙ ap (last_of none) e in
          rw end (update-ne s.next wt a none other, update-ne s.prev wt a none other)
      | inr (zs, z, e) ↦
          let end : q.last ≡ some z =
            v.last ∙ ap (last_of none) e ∙ last_of-append none zs (z ∷ []) in
          let last : z ≢ a = (NotIn-of_append a zs (z ∷ []) (rw e at far.0)).1.0 in
          rw end (
            update-ne (update s.next wt none) z a (some wt) last ∙ update-ne s.next wt a none other,
            update-ne s.prev wt a (some z) other,
          )
    ]
