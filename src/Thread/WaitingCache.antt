-- ===== src/Thread/WaitingCache.antt =====
-- kernel/thread/thread.c, the cache of `waiting_thread_t` of a CPU and the central one.
pub mod Keep
pub mod Acquire
pub mod Release
use pentagon.Prelude.{
  ℕ, zero, suc, ◌-◌, Option, none, some, List, [], ◌∷◌, ◌==◌, if◌then◌else◌, update, length,
}

abbrev pub WaitingRef : Type 0
WaitingRef = ℕ

-- `cache` holds the first `m_wt_cache_len` places of `m_wt_cache`, the last one first; the others are
-- NULL. The central cache is linked through `next`.
pub record WaitingCache : Type 0 where
  pub next : WaitingRef → Option WaitingRef
  pub cache : List WaitingRef
  pub global : Option WaitingRef

-- The loop that fills an empty local cache from the central one, for up to `n` rounds.
unfoldable pub fill : ℕ → WaitingCache → WaitingCache
fill zero c = c
fill (suc n) c = elim c.global [
  | none ↦ c
  | some wt ↦
      fill n (record { next = update c.next wt none; cache = wt ∷ c.cache; global = c.next wt })
]

abbrev pub fill_empty : List WaitingRef → WaitingCache → WaitingCache
fill_empty [] c = fill 64 c
fill_empty (_ ∷ _) c = c

-- What is popped, and NULL is none. When both caches are empty, what `malloc` answers, `fresh`, is put
-- in the first place of the local one, NULL too, and popped from there.
abbrev pub pop_cached :
    Option WaitingRef → List WaitingRef → WaitingCache → Option WaitingRef × WaitingCache
pop_cached fresh [] c = (fresh, c)
pop_cached fresh (wt ∷ wts) c = (some wt, record c { cache = wts })

unfoldable pub acquire_waiting_thread :
    Option WaitingRef → WaitingCache → Option WaitingRef × WaitingCache
acquire_waiting_thread fresh c =
    let filled = fill_empty c.cache c in pop_cached fresh filled.cache filled

-- `if (first == NULL) first = p; else last->next = p;`
abbrev pub link_last :
    Option WaitingRef
    → Option WaitingRef
    → WaitingRef
    → (WaitingRef → Option WaitingRef)
    → WaitingRef
    → Option WaitingRef
link_last none last p next = next
link_last (some _) none p next = next
link_last (some _) (some x) p next = update next x (some p)

abbrev pub first_of : Option WaitingRef → WaitingRef → Option WaitingRef
first_of none p = some p
first_of (some x) p = some x

-- The loop that takes `n` out of the local cache: the links, what is left, and `last`.
unfoldable pub take_out :
    ℕ
    → (WaitingRef → Option WaitingRef)
    → List WaitingRef
    → Option WaitingRef
    → Option WaitingRef
    → (WaitingRef → Option WaitingRef) × List WaitingRef × Option WaitingRef
take_out zero next cache first last = (next, cache, last)
take_out (suc n) next [] first last = (next, [], last)
take_out (suc n) next (p ∷ ps) first last =
    take_out n (link_last first last p next) ps (first_of first p) (some p)

-- `last->next = m_global_wt_cache; m_global_wt_cache = last;`
abbrev pub put_central :
    (WaitingRef → Option WaitingRef) × List WaitingRef × Option WaitingRef
    → Option WaitingRef
    → WaitingCache
put_central (next, cache, none) global = record { next = next; cache = cache; global = global }
put_central (next, cache, some last) global = record {
  next = update next last global;
  cache = cache;
  global = some last;
}

unfoldable pub release_waiting_thread : WaitingCache → WaitingRef → WaitingCache
release_waiting_thread c wt =
    let next = update c.next wt none in
    let c1 =
      if length c.cache == 128
      then put_central (take_out (length c.cache - 64) next c.cache none none) c.global
      else record c { next = next } in
    record c1 { cache = wt ∷ c1.cache }
