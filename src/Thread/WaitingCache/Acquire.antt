-- ===== src/Thread/WaitingCache/Acquire.antt =====
-- What `acquire_waiting_thread` returns and leaves.
use pentagon.Prelude.{
  ◌<◌, ◌≤◌, ◌≡◌, refl, sym, subst, arith, Option, some, List, [], ◌∷◌, length, Distinct, Apart,
  Apart-symm,
}
use pentagon.Scheduler.ThreadQueue.Refine.{Chain}
use pentagon.Thread.FreeThreads.Keep.{moved, moved-longer}
use pentagon.Thread.WaitingCache.{
  WaitingRef, WaitingCache, fill, pop_cached, acquire_waiting_thread,
}
use pentagon.Thread.WaitingCache.Keep.{fill-moved, moved-Apart, moved-few}

-- The local cache has at most 128 entries, the central one is the list, and no entry is there twice.
pub record Caches (c : WaitingCache) (gs : List WaitingRef) : Type 0 where
  pub chain : Chain c.next c.global gs
  pub once : Distinct c.cache × Distinct gs
  pub apart : Apart c.cache gs
  pub small : length c.cache ≤ 128

-- What a call returns: the newest local entry; after up to 64 central ones were moved to an empty
-- local cache; or what `malloc` answers if both caches are empty.
abbrev pub Acquired :
    Option WaitingRef
    → List WaitingRef
    → List WaitingRef
    → Option WaitingRef × WaitingCache
    → Type 0
Acquired fresh (x ∷ xs) gs r = (r.0 ≡ some x) × (r.1.cache ≡ xs) × Caches r.1 gs
Acquired fresh [] [] r = (r.0 ≡ fresh) × (r.1.cache ≡ []) × Caches r.1 []
Acquired fresh [] (g ∷ gs) r =
    let m = moved 64 (g ∷ gs) [] in
    (x : WaitingRef) × (r.0 ≡ some x) × (x ∷ r.1.cache ≡ m.1) × Caches r.1 m.0

popped :
    (fresh : Option WaitingRef) (d : WaitingCache) (z hs : List WaitingRef)
    → 0 < length z
    → Chain d.next d.global hs
    → Distinct z × Distinct hs
    → Apart z hs
    → length z ≤ 64
    → let r = pop_cached fresh z d in
      (x : WaitingRef) × (r.0 ≡ some x) × (x ∷ r.1.cache ≡ z) × Caches r.1 hs
popped fresh d [] hs pos k o a le = absurd (omega (arith, pos))
popped fresh d (y ∷ ys) hs pos k o a le = (
  y,
  refl,
  refl,
  record { chain = k; once = (o.0.1, o.1); apart = a.1; small = omega (arith, le) },
)

acquire-Acquired :
    (next : WaitingRef → Option WaitingRef) (xs : List WaitingRef) (global : Option WaitingRef)
    (fresh : Option WaitingRef) (gs : List WaitingRef)
    → let c : WaitingCache = record { next = next; cache = xs; global = global } in
      Caches c gs → Acquired fresh xs gs (acquire_waiting_thread fresh c)
unfolding acquire_waiting_thread
acquire-Acquired next (x ∷ xs) global fresh gs k = (
  refl,
  refl,
  record {
    chain = k.chain;
    once = (k.once.0.1, k.once.1);
    apart = k.apart.1;
    small = omega (arith, k.small);
  },
)
acquire-Acquired next [] global fresh [] k =
    let c1 = fill 64 (record { next = next; cache = []; global = global }) in
    let f = fill-moved 64 (record { next = next; cache = []; global = global }) [] k.chain tt in
    let none_local : c1.cache ≡ [] = f.1 in
    subst (λ (z : List WaitingRef). Acquired fresh [] [] (pop_cached fresh z c1)) (sym none_local)
      (
        refl,
        none_local,
        record {
          chain = f.0;
          once = (subst Distinct (sym none_local) tt, tt);
          apart = subst (λ (z : List WaitingRef). Apart z []) (sym none_local) tt;
          small = subst (λ (z : List WaitingRef). length z ≤ 128) (sym none_local) (omega arith);
        },
      )
acquire-Acquired next [] global fresh (g ∷ gs) k =
    let c1 = fill 64 (record { next = next; cache = []; global = global }) in
    let f =
      fill-moved 64 (record { next = next; cache = []; global = global }) (g ∷ gs) k.chain
        k.once.1 in
    let m = moved 64 (g ∷ gs) [] in
    let more : 0 < length m.1 = omega (arith, moved-longer 63 gs (g ∷ [])) in
    let few : length m.1 ≤ 64 = omega (arith, moved-few 64 (g ∷ gs) []) in
    let (d0, d1, a) = moved-Apart 64 (g ∷ gs) [] k.once.1 tt (Apart-symm [] (g ∷ gs) tt) in
    subst (λ (z : List WaitingRef). Acquired fresh [] (g ∷ gs) (pop_cached fresh z c1)) (sym f.1)
      (popped fresh c1 m.1 m.0 more f.0 (d1, d0) a few)

-- `acquire_waiting_thread` returns the newest entry of the local cache; if that is empty, up to 64 are
-- moved from the central one first; if both are empty, it returns what `malloc` answers, NULL if that
-- is NULL, and the caches stay empty. The other entries stay in the caches, each once, and the local
-- one within its 128 places.
pub acquire_waiting_thread-Acquired :
    (fresh : Option WaitingRef) (c : WaitingCache) (gs : List WaitingRef)
    → Caches c gs
    → Acquired fresh c.cache gs (acquire_waiting_thread fresh c)
acquire_waiting_thread-Acquired fresh c gs k = acquire-Acquired c.next c.cache c.global fresh gs k
