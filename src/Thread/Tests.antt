-- ===== src/Thread/Tests.antt =====
-- The free threads and the caches of waiting threads at concrete values.
use pentagon.Prelude.{
  zero, suc, ℕ, ◌+◌, ◌≤◌, NotIn, Distinct, Apart, ◌+◌, suc, List, ℕ, ◌≡◌, ◌<◌, refl, arith, true,
  none, some, Option, [], ◌∷◌, done, ◌==◌, if◌then◌else◌, length,
}
use pentagon.Scheduler.ThreadQueue.{Thread, Links}
use pentagon.Thread.FreeThreads.{FreeThreads, get_free_thread, release_thread}
use pentagon.Thread.FreeThreads.Keep.{AreFree, moved}
use pentagon.Thread.FreeThreads.Get.{Gets, get_free_thread-Gets}
use pentagon.Thread.FreeThreads.Release.{given, release_thread-AreFree}
use pentagon.Thread.WaitingCache.{
  WaitingRef, WaitingCache, acquire_waiting_thread, release_waiting_thread,
}
use pentagon.Thread.WaitingCache.Release.{Released, release_waiting_thread-Released}
use pentagon.Thread.WaitingCache.Acquire.{Caches, Acquired, acquire_waiting_thread-Acquired}

-- The CPU has no free threads, the kernel has 5 and 6.
abbrev links : Links
links t = if t == 5 then some 6 else none

abbrev free : FreeThreads
free = record {
  links = links;
  local = record { head = none; count = 0 };
  global = record { head = some 5; count = 2 };
}

free-AreFree : AreFree free [] (5 ∷ 6 ∷ [])
free-AreFree = record {
  left = (refl, refl);
  right = ((refl, (refl, refl)), refl);
  distinct = (tt, omega arith);
  apart = tt;
}

get_free_thread-Gets_example :
    (r : Option Thread × FreeThreads) × (get_free_thread 2 free ≡ done r) × Gets [] (5 ∷ 6 ∷ []) r
get_free_thread-Gets_example = get_free_thread-Gets 0 free [] (5 ∷ 6 ∷ []) free-AreFree

release_thread-AreFree_example :
    let m = moved (given 0) (9 ∷ []) (5 ∷ 6 ∷ []) in
    (s1 : FreeThreads) × (release_thread true free 9 ≡ some s1)
    × AreFree s1 m.0 m.1
    × (length m.0 < 64)
release_thread-AreFree_example =
    release_thread-AreFree free 9 [] (5 ∷ 6 ∷ []) free-AreFree tt (omega arith)

-- The local cache is empty, the central one has entries 5 and 6.
abbrev empty_cache : WaitingCache
empty_cache = record { next = links; cache = []; global = some 5 }

empty_cache-Caches : Caches empty_cache (5 ∷ 6 ∷ [])
empty_cache-Caches = record {
  chain = (refl, (refl, refl));
  once = (tt, omega arith);
  apart = tt;
  small = omega arith;
}

acquire_waiting_thread-Acquired_example :
    Acquired none [] (5 ∷ 6 ∷ []) (acquire_waiting_thread none empty_cache)
acquire_waiting_thread-Acquired_example =
    acquire_waiting_thread-Acquired none empty_cache (5 ∷ 6 ∷ []) empty_cache-Caches

-- A local cache with the 128 entries from 1000 on.
abbrev entries : ℕ → List WaitingRef
entries zero = []
entries (suc n) = (1000 + n) ∷ entries n

abbrev full_cache : WaitingCache
full_cache = record { next = links; cache = entries 128; global = some 5 }

entries-fresh : (n x : ℕ) → 1000 + n ≤ x → NotIn x (entries n)
entries-fresh zero x le = tt
entries-fresh (suc n) x le = ((λ e. omega (arith, e, le)), entries-fresh n x (omega (arith, le)))

entries-Distinct : (n : ℕ) → Distinct (entries n)
entries-Distinct zero = tt
entries-Distinct (suc n) = (entries-fresh n (1000 + n) (omega arith), entries-Distinct n)

entries-Apart : (n : ℕ) → Apart (entries n) (5 ∷ 6 ∷ [])
entries-Apart zero = tt
entries-Apart (suc n) = (((λ e. omega (arith, e)), ((λ e. omega (arith, e)), tt)), entries-Apart n)

full_cache-Caches : Caches full_cache (5 ∷ 6 ∷ [])
full_cache-Caches = record {
  chain = (refl, (refl, refl));
  once = (entries-Distinct 128, omega arith);
  apart = entries-Apart 128;
  small = omega arith;
}

release_waiting_thread-Released_example :
    Released (entries 128) 2000 (5 ∷ 6 ∷ []) (release_waiting_thread full_cache 2000) true
release_waiting_thread-Released_example =
    release_waiting_thread-Released full_cache 2000 (5 ∷ 6 ∷ []) full_cache-Caches
      (entries-fresh 128 2000 (omega arith)) (omega arith)
