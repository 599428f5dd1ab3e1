-- ===== src/Thread/WaitingCache/Release.antt =====
-- What `release_waiting_thread` leaves.
use pentagon.Prelude.{
  ◌-◌, ◌<◌, ◌≡◌, refl, sym, subst, ◌∙◌, arith, Bool, true, false, Bool-cases, inl, inr, Option,
  none, some, List, [], ◌∷◌, length, take, drop, length-drop, take-append-drop, last?, ◌==◌, NotIn,
  Distinct, Apart, update, update_self, Apart-symm, NotIn-of_append, Distinct-of_append,
  Apart-of_append,
}
use pentagon.Scheduler.ThreadQueue.Refine.{Chain, Chain-update, last?-cons, last-ne, NotIn-last}
use pentagon.Thread.WaitingCache.{
  WaitingRef, WaitingCache, take_out, put_central, release_waiting_thread,
}
use pentagon.Thread.WaitingCache.Keep.{last_from, last_from-last?, IsOutside, take_out-Chain}
use pentagon.Thread.WaitingCache.Acquire.{Caches}

-- What a release leaves. A full local cache loses the first 64 entries, and only the last of them
-- comes into the central one.
abbrev pub Released : List WaitingRef → WaitingRef → List WaitingRef → WaitingCache → Bool → Type 0
Released xs wt gs r true =
    (z : WaitingRef) × (last? (take 64 xs) ≡ some z)
    × (r.cache ≡ wt ∷ drop 64 xs)
    × Caches r (z ∷ gs)
Released xs wt gs r false = (r.cache ≡ wt ∷ xs) × Caches r gs

taken_last :
    (xs : List WaitingRef)
    → 0 < length xs
    → (z : WaitingRef) × (last_from none (take 64 xs) ≡ some z) × (last? (take 64 xs) ≡ some z)
taken_last [] pos = absurd (omega (arith, pos))
taken_last (x ∷ xs) pos =
    let (z, e) = last?-cons x (take 63 xs) in (z, last_from-last? x (take 63 xs) ∙ e, e)

central-Caches :
    (next : WaitingRef → Option WaitingRef) (wt z : WaitingRef) (xs : List WaitingRef)
    (h : Option WaitingRef) (gs : List WaitingRef)
    → Chain next h gs
    → NotIn z gs
    → last? (take 64 xs) ≡ some z
    → Distinct xs × Distinct gs
    → Apart xs gs
    → NotIn wt xs × NotIn wt gs
    → length xs ≡ 128
    → let c : WaitingCache = record {
      next = update next z h;
      cache = wt ∷ drop 64 xs;
      global = some z;
    } in
      Caches c (z ∷ gs)
central-Caches next wt z xs h gs k zg l d a w full =
    let whole = take-append-drop 64 xs in
    let parts = Distinct-of_append (take 64 xs) (drop 64 xs) (subst Distinct (sym whole) d.0) in
    let no_wt = NotIn-of_append wt (take 64 xs) (drop 64 xs) (subst (NotIn wt) (sym whole) w.0) in
    let rest =
      Apart-of_append gs (take 64 xs) (drop 64 xs)
        (subst (Apart gs) (sym whole) (Apart-symm xs gs a)) in
    let no_z = NotIn-last z (drop 64 xs) (take 64 xs) l parts.apart in
    let ne = last-ne wt z (take 64 xs) no_wt.0 l in
    record {
      chain = (
        refl,
        subst (λ o. Chain (update next z h) o gs) (sym (update_self next z h))
            (Chain-update next z h h gs zg k),
      );
      once = ((no_wt.1, parts.right), (zg, d.1));
      apart = ((λ e. ne (sym e), w.1), Apart-symm (z ∷ gs) (drop 64 xs) (no_z, rest.1));
      small = omega (arith, length-drop 64 xs);
    }

-- A full local cache.
full-Released :
    (r : (WaitingRef → Option WaitingRef) × List WaitingRef × Option WaitingRef) (wt : WaitingRef)
    (xs : List WaitingRef) (h : Option WaitingRef) (gs : List WaitingRef)
    → Chain r.0 h gs × (r.1 ≡ drop 64 xs) × (r.2 ≡ last_from none (take 64 xs)) × IsOutside r.2 gs
    → Distinct xs × Distinct gs
    → Apart xs gs
    → NotIn wt xs × NotIn wt gs
    → length xs ≡ 128
    → let c = put_central r h in Released xs wt gs (record c { cache = wt ∷ c.cache }) true
full-Released (next, cache, last) wt xs h gs t d a w full =
    let (z, e, l) = taken_last xs (omega (arith, full)) in
    let some_z : last ≡ some z = t.2 ∙ e in
    let zg : NotIn z gs = subst (λ o. IsOutside o gs) some_z t.3 in
    let filled : Released xs wt gs
        (record { next = update next z h; cache = wt ∷ drop 64 xs; global = some z }) true =
      (z, l, refl, central-Caches next wt z xs h gs t.0 zg l d a w full) in
    subst
      (λ o.
        let c = put_central (next, cache, o) h in
        Released xs wt gs (record c { cache = wt ∷ c.cache }) true)
      (sym some_z)
      (subst
        (λ ys.
          Released xs wt gs (record { next = update next z h; cache = wt ∷ ys; global = some z })
            true)
        (sym t.1) filled)

-- A waiting thread that is in no cache comes first in the local one, which stays within its 128
-- places. Of a full local cache, the first 64 entries leave it; only the last of them comes into the
-- central cache, and the other 63 are in no cache any more.
pub release_waiting_thread-Released :
    (c : WaitingCache) (wt : WaitingRef) (gs : List WaitingRef)
    → Caches c gs
    → NotIn wt c.cache
    → NotIn wt gs
    → Released c.cache wt gs (release_waiting_thread c wt) (length c.cache == 128)
unfolding release_waiting_thread
release_waiting_thread-Released c wt gs k wx wg = elim (Bool-cases (length c.cache == 128)) [
  | inl e ↦ rw e (
      let full : length c.cache ≡ 128 = ground arith in
      let next = update c.next wt none in
      let t =
        take_out-Chain (length c.cache - 64) next c.cache none none c.global gs tt k.apart
          (Chain-update c.next wt none c.global gs wg k.chain) in
      let n : length c.cache - 64 ≡ 64 = omega (arith, full) in
      let r = take_out (length c.cache - 64) next c.cache none none in
      let u : (r.1 ≡ drop 64 c.cache) × (r.2 ≡ last_from none (take 64 c.cache)) =
        subst (λ m. (r.1 ≡ drop m c.cache) × (r.2 ≡ last_from none (take m c.cache))) n
          (t.1, t.2) in
      full-Released r wt c.cache c.global gs (t.0, u.0, u.1, t.3) k.once k.apart (wx, wg) full)
  | inr e ↦ rw e (
    refl,
    record {
      chain = Chain-update c.next wt none c.global gs wg k.chain;
      once = ((wx, k.once.0), k.once.1);
      apart = (wg, k.apart);
      small = let s = k.small in ground arith;
    },
  )
]
