-- ===== src/Waitable/WaitQueue/Remove.antt =====
-- `wait_queue_dequeue_wt` against the list of the entries.
use pentagon.Prelude.{
  ◌≡◌, inl, inr, refl, sym, ap, subst, ◌∙◌, arith, true, false, Option, none, some, List, [], ◌∷◌,
  ◌++◌, if◌then◌else◌, update, update-ne, update_self, NotIn, NotIn-of_append, Distinct,
  Distinct-of_append, Distinct-append, Apart, Apart-of_append, Apart-symm, append-nil,
}
use pentagon.Waitable.WaitQueue.{
  WaitingRef, Store, WaitQueue, no_queue, points_at, unlink, wait_queue_dequeue_wt,
}
use pentagon.Waitable.WaitQueue.Refine.{IsQueue}
use pentagon.Waitable.WaitQueue.Segments.{
  first_of, last_of, Segment, last_of-append, first_of-append, Segment-append, Segment-of_append,
  Segment-next, Segment-prev, Segment-relast, Segment-refirst, split_last,
}

pub record Removed (wt : WaitingRef) (xs : List WaitingRef) (r : Store × WaitQueue) : Type 0 where
  pub rest : IsQueue r.0 r.1 xs
  pub next : r.0.next wt ≡ none
  pub prev : r.0.prev wt ≡ none

-- The parts of a queue around an entry.
record Around (s : Store) (q : WaitQueue) (xs : List WaitingRef) (wt : WaitingRef)
    (ys : List WaitingRef) : Type 0 where
  before : Segment s.next s.prev none xs (some wt)
  prev : s.prev wt ≡ last_of none xs
  next : s.next wt ≡ first_of ys none
  behind : Segment s.next s.prev (some wt) ys none
  first : q.first ≡ first_of xs (some wt)
  last : q.last ≡ last_of (some wt) ys
  left : Distinct xs
  right : Distinct ys
  not_before : NotIn wt xs
  not_behind : NotIn wt ys
  apart : Apart xs ys

IsQueue-Around :
    (s : Store) (q : WaitQueue) (xs : List WaitingRef) (wt : WaitingRef) (ys : List WaitingRef)
    → IsQueue s q (xs ++ (wt ∷ ys))
    → Around s q xs wt ys
IsQueue-Around s q xs wt ys v =
    let (l, r) = Segment-of_append s.next s.prev none xs (wt ∷ ys) none v.segment in
    let d = Distinct-of_append xs (wt ∷ ys) v.distinct in
    let flipped = Apart-symm xs (wt ∷ ys) d.apart in
    record {
      before = l;
      prev = r.0;
      next = r.1;
      behind = r.2;
      first = v.first ∙ first_of-append xs (wt ∷ ys) none;
      last = v.last ∙ last_of-append none xs (wt ∷ ys);
      left = d.left;
      right = d.right.1;
      not_before = flipped.0;
      not_behind = d.right.0;
      apart = Apart-symm ys xs flipped.1;
    }

module _ (s : Store) (q : WaitQueue) (wt : WaitingRef) where
  unlink_only : Around s q [] wt [] → Removed wt [] (unlink s q wt none none)
  unfolding unlink points_at
  unlink_only v =
      let here : points_at q.first wt ≡ true = rw v.first (ground arith) in
      rw here (record {
        rest = record { segment = tt; first = refl; last = refl; distinct = tt };
        next = v.next;
        prev = v.prev;
      })

  unlink_start :
      (y : WaitingRef) (ys : List WaitingRef)
      → Around s q [] wt (y ∷ ys)
      → Removed wt (y ∷ ys) (unlink s q wt none (some y))
  unfolding unlink
  unlink_start y ys v = record {
    rest = record {
      segment =
          Segment-next s.next (update s.prev y none) wt none none (y ∷ ys) none v.not_behind
            (Segment-refirst s.next s.prev (some wt) y ys none none v.right.0 v.behind);
      first = refl;
      last = v.last;
      distinct = v.right;
    };
    next = update_self s.next wt none;
    prev = update-ne s.prev y wt none v.not_behind.0 ∙ v.prev;
  }

  unlink_end :
      (zs : List WaitingRef) (z : WaitingRef)
      → Around s q (zs ++ (z ∷ [])) wt []
      → Removed wt (zs ++ (z ∷ [])) (unlink s q wt (some z) none)
  unfolding unlink
  unlink_end zs z v =
      let d = Distinct-of_append zs (z ∷ []) v.left in
      let out : NotIn z zs = (Apart-symm zs (z ∷ []) d.apart).0 in
      let ne = (NotIn-of_append wt zs (z ∷ []) v.not_before).1.0 in
      record {
        rest = record {
          segment =
              Segment-prev (update s.next z none) s.prev wt none none (zs ++ (z ∷ [])) none
                v.not_before (Segment-relast s.next s.prev none zs z (some wt) none out v.before);
          first =
              v.first
              ∙ first_of-append zs (z ∷ []) (some wt)
              ∙ sym (first_of-append zs (z ∷ []) none);
          last = sym (last_of-append none zs (z ∷ []));
          distinct = v.left;
        };
        next = update-ne s.next z wt none ne ∙ v.next;
        prev = update_self s.prev wt none;
      }

  unlink_middle :
      (zs : List WaitingRef) (z y : WaitingRef) (ys : List WaitingRef)
      → Around s q (zs ++ (z ∷ [])) wt (y ∷ ys)
      → Removed wt ((zs ++ (z ∷ [])) ++ (y ∷ ys)) (unlink s q wt (some z) (some y))
  unfolding unlink
  unlink_middle zs z y ys v =
      let xs = zs ++ (z ∷ []) in
      let d = Distinct-of_append zs (z ∷ []) v.left in
      let out : NotIn z zs = (Apart-symm zs (z ∷ []) d.apart).0 in
      let flipped = Apart-symm xs (y ∷ ys) v.apart in
      let z_behind : NotIn z (y ∷ ys) =
        (Apart-symm (y ∷ ys) (z ∷ []) (Apart-of_append (y ∷ ys) zs (z ∷ []) flipped).1).0 in
      let n = update s.next z (some y) in
      let b = update s.prev y (some z) in
      let n' = update n wt none in
      let b' = update b wt none in
      let before : Segment n' b' none xs (some y) =
        Segment-prev n' b wt none none xs (some y) v.not_before (
          Segment-next n b wt none none xs (some y) v.not_before (
            Segment-prev n s.prev y (some z) none xs (some y) flipped.0
              (Segment-relast s.next s.prev none zs z (some wt) (some y) out v.before))) in
      let behind : Segment n' b' (some z) (y ∷ ys) none =
        Segment-prev n' b wt none (some z) (y ∷ ys) none v.not_behind (
          Segment-next n b wt none (some z) (y ∷ ys) none v.not_behind (
            Segment-next s.next b z (some y) (some z) (y ∷ ys) none z_behind
              (Segment-refirst s.next s.prev (some wt) y ys none (some z) v.right.0 v.behind))) in
      record {
        rest = record {
          segment =
              Segment-append n' b' none xs (y ∷ ys) none before
                (rw (last_of-append none zs (z ∷ [])) behind);
          first =
              v.first
              ∙ first_of-append zs (z ∷ []) (some wt)
              ∙ sym (first_of-append xs (y ∷ ys) none ∙ first_of-append zs (z ∷ []) (some y));
          last = v.last ∙ sym (last_of-append none xs (y ∷ ys));
          distinct = Distinct-append xs (y ∷ ys) v.left v.right v.apart;
        };
        next = update_self n wt none;
        prev = update_self b wt none;
      }

  unlink_gone : points_at q.first wt ≡ false → unlink s q wt none none ≡ (s, q)
  unfolding unlink
  unlink_gone e = ap (λ b. (s, if b then no_queue else q)) e

  wait_queue_dequeue_wt-unlink :
      (x y : Option WaitingRef)
      → s.prev wt ≡ x
      → s.next wt ≡ y
      → wait_queue_dequeue_wt s q wt ≡ unlink s q wt x y
  unfolding wait_queue_dequeue_wt
  wait_queue_dequeue_wt-unlink x y e f =
      ap (λ p. unlink s q wt p (s.next wt)) e ∙ ap (unlink s q wt x) f

  unlink-Removed :
      (xs ys : List WaitingRef)
      → Around s q xs wt ys
      → Removed wt (xs ++ ys) (unlink s q wt (last_of none xs) (first_of ys none))
  unlink-Removed xs [] v = elim (split_last xs) [
    | inl e ↦ rw e (unlink_only (rw e at v))
    | inr (zs, z, e) ↦
        rw (append-nil, e, last_of-append none zs (z ∷ [])) (unlink_end zs z (rw e at v))
  ]
  unlink-Removed xs (y ∷ ys) v = elim (split_last xs) [
    | inl e ↦ rw e (unlink_start y ys (rw e at v))
    | inr (zs, z, e) ↦ rw (e, last_of-append none zs (z ∷ [])) (unlink_middle zs z y ys (rw e at v))
  ]

-- An entry of the queue, at any place, is removed; the others stay in order.
pub wait_queue_dequeue_wt-Removed :
    (s : Store) (q : WaitQueue) (wt : WaitingRef) (xs ys : List WaitingRef)
    → IsQueue s q (xs ++ (wt ∷ ys))
    → Removed wt (xs ++ ys) (wait_queue_dequeue_wt s q wt)
wait_queue_dequeue_wt-Removed s q wt xs ys v =
    let around = IsQueue-Around s q xs wt ys v in
    subst (Removed wt (xs ++ ys))
      (sym (
        wait_queue_dequeue_wt-unlink s q wt (last_of none xs) (first_of ys none) around.prev
          around.next))
      (unlink-Removed s q wt xs ys around)

points_at_other :
    (wt : WaitingRef) (xs : List WaitingRef) → NotIn wt xs → points_at (first_of xs none) wt ≡ false
unfolding points_at
points_at_other wt [] h = refl
points_at_other wt (x ∷ xs) h = ground (arith, h.0)

-- An entry that another call has unlinked already leaves the queue and the store as they are.
pub wait_queue_dequeue_wt-gone :
    (s : Store) (q : WaitQueue) (wt : WaitingRef) (xs : List WaitingRef)
    → IsQueue s q xs
    → NotIn wt xs
    → s.next wt ≡ none
    → s.prev wt ≡ none
    → wait_queue_dequeue_wt s q wt ≡ (s, q)
wait_queue_dequeue_wt-gone s q wt xs v out next prev =
    wait_queue_dequeue_wt-unlink s q wt none none prev next
    ∙ unlink_gone s q wt (ap (λ h. points_at h wt) v.first ∙ points_at_other wt xs out)
