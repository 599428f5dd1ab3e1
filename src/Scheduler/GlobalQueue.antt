-- ===== src/Scheduler/GlobalQueue.antt =====
-- kernel/thread/scheduler.c, `global_run_queue_get`: a CPU takes its share of the global queue.
use pentagon.Prelude.{
  ℕ, zero, suc, ◌+◌, ◌-◌, ◌/◌, ◌≤◌, ◌<◌, ◌≡◌, refl, ap, ◌∙◌, false, ◌&&◌, Option, none, some, List,
  [], ◌∷◌, ◌++◌, arith, ltb, ◌==◌, if◌then◌else◌, ◌>>=◌, length, take, drop, Distinct, append_assoc,
  append-nil, Distinct-of_append, Distinct-append, Apart-of_append, Apart-append, Apart-symm,
  take-append-drop, length-drop, update_self,
}
use pentagon.Scheduler.ThreadQueue
use pentagon.Scheduler.ThreadQueue.{Thread}
use pentagon.Scheduler.ThreadQueue.Refine.{Holds, pop-Holds}
use pentagon.Scheduler.RunQueue.{Scheduler, run_queue_len, size, run_queue_put, set_local, store}
use pentagon.Scheduler.RunQueue.Invariant.{IsValid, queued, Queues}
use pentagon.Scheduler.RunQueue.PutPaths.{put_loop_fast, store-IsValid, length-own}

-- The size of the share: an even part of the queue, at most `max` where that is given, and at most
-- half of a local queue.
unfoldable pub share : ℕ → ℕ → ℕ → ℕ
share total cpus max =
    let even = total / cpus + 1 in
    let there = if ltb total even then total else even in
    let asked = if ltb 0 max && ltb max there then max else there in
    if ltb (run_queue_len / 2) asked then run_queue_len / 2 else asked

-- The loop that moves threads to the local queue. The count says that the queue holds them, so
-- `none` also stands for a NULL that it pops.
unfoldable pub refill : ℕ → Scheduler → ℕ → Option Scheduler
refill zero s cpu = some s
refill (suc n) s cpu =
    let (t, q) = ThreadQueue.pop s.links s.global in
    t >>= λ t1. run_queue_put (record s { global = q }) cpu t1 false >>= λ s'. refill n s' cpu

unfoldable pub global_run_queue_get : Scheduler → ℕ → ℕ → Option (Option Thread × Scheduler)
global_run_queue_get s cpu max =
    let n = share s.global_size s.cpu_count max in
    let (t, q) = ThreadQueue.pop s.links s.global in
    let s' = record s { global = q; global_size = s.global_size - n } in
    let rest = refill (n - 1) s' cpu >>= λ s''. some (t, s'') in
    if s.global_size == 0 then some (none, s) else rest

-- What holds while threads are moved; the count of the global queue is already the final one.
record Filling (s : Scheduler) (cpu : ℕ) (nx : Option Thread) (ts gs : List Thread) (total : ℕ)
    : Type 0 where
  valid : IsValid (s.local cpu)
  upcoming : (s.local cpu).next ≡ nx
  own : queued (s.local cpu) ≡ ts
  global : Holds s.links s.global gs
  counted : s.global_size ≡ total

refill-Filling :
    (n : ℕ) (s : Scheduler) (cpu : ℕ) (nx : Option Thread) (ts gs : List Thread) (total : ℕ)
    → Filling s cpu nx ts gs total
    → size (s.local cpu) + n ≤ run_queue_len
    → n ≤ length gs
    → (s' : Scheduler) × (refill n s cpu ≡ some s')
      × Filling s' cpu nx (ts ++ take n gs) (drop n gs) total
unfolding refill
refill-Filling zero s cpu nx ts gs total v room b = (s, refl, rw append-nil v)
refill-Filling (suc n) s cpu nx ts [] total v room b = absurd (omega arith)
refill-Filling (suc n) s cpu nx ts (t ∷ gs) total v room b =
    let (first, rest) = pop-Holds s.links s.global t gs v.global in
    let s1 : Scheduler = record s { global = (ThreadQueue.pop s.links s.global).1 } in
    let rq = store (s.local cpu) t in
    let s2 : Scheduler = set_local s1 cpu rq in
    let same : s2.local cpu ≡ rq = update_self s.local cpu rq in
    let (valid, own) = store-IsValid (s.local cpu) t v.valid (omega arith) in
    let put : run_queue_put s1 cpu t false ≡ some s2 =
      unfold run_queue_put in put_loop_fast 0 s1 cpu t (omega arith) in
    let v2 : Filling s2 cpu nx (ts ++ (t ∷ [])) gs total = record {
      valid = rw same valid;
      upcoming = rw same v.upcoming;
      own = rw same (own ∙ ap (λ r. r ++ (t ∷ [])) v.own);
      global = rest;
      counted = v.counted;
    } in
    let grown : size (s2.local cpu) ≡ size (s.local cpu) + 1 =
      rw same (omega (arith, valid.fits)) in
    let (s', done, v') =
      refill-Filling n s2 cpu nx (ts ++ (t ∷ [])) gs total v2 (omega arith) (omega arith) in
    (s', rw (first, put) done, rw append_assoc at v')

-- The share is at least one thread, and at most what is there.
share_bounds :
    (total cpus max : ℕ)
    → 0 < total
    → (0 < share total cpus max) × (share total cpus max ≤ total) × (share total cpus max ≤ 128)
unfolding share
share_bounds total cpus max h = ground arith

moved-Distinct : (a b ts : List Thread) → Distinct ((a ++ b) ++ ts) → Distinct (b ++ (ts ++ a))
moved-Distinct a b ts d =
    let outer = Distinct-of_append (a ++ b) ts d in
    let inner = Distinct-of_append a b outer.left in
    let across = Apart-of_append ts a b (Apart-symm (a ++ b) ts outer.apart) in
    let own = Distinct-append ts a outer.right inner.left across.0 in
    Distinct-append b (ts ++ a) inner.right own
      (Apart-append b ts a (Apart-symm ts b across.1) (Apart-symm a b inner.apart))

abbrev pub share_of : Scheduler → ℕ → ℕ
share_of s max = share s.global_size s.cpu_count max

-- An empty global queue gives nothing and stays as it is.
pub global_get-nil :
    (s : Scheduler) (cpu max : ℕ) (nx : Option Thread) (ts : List Thread)
    → Queues s cpu nx ts []
    → global_run_queue_get s cpu max ≡ some (none, s)
unfolding global_run_queue_get
global_get-nil s cpu max nx ts v = let e : s.global_size ≡ 0 = v.counted in ground arith

-- The first thread of the global queue is returned, and the rest of the share moves, in its order,
-- to the end of the local queue, if there is room for it.
pub global_get-Queues :
    (s : Scheduler) (cpu max : ℕ) (nx : Option Thread) (t : Thread) (ts gs : List Thread)
    → Queues s cpu nx ts (t ∷ gs)
    → length ts + share_of s max ≤ run_queue_len + 1
    → (s' : Scheduler) × (global_run_queue_get s cpu max ≡ some (some t, s'))
      × Queues s' cpu nx (ts ++ take (share_of s max - 1) gs) (drop (share_of s max - 1) gs)
global_get-Queues s cpu max nx t ts gs v room =
    let n = share_of s max in
    let (first, rest) = pop-Holds s.links s.global t gs v.global in
    let count : s.global_size ≡ suc (length gs) = v.counted in
    let bounds = share_bounds s.global_size s.cpu_count max (omega arith) in
    let s1 : Scheduler = record s {
      global = (ThreadQueue.pop s.links s.global).1;
      global_size = s.global_size - n;
    } in
    let v1 : Filling s1 cpu nx ts gs (s.global_size - n) = record {
      valid = v.valid;
      upcoming = v.upcoming;
      own = v.own;
      global = rest;
      counted = refl;
    } in
    let len = length-own s cpu nx ts (t ∷ gs) v in
    let (s', done, v') =
      refill-Filling (n - 1) s1 cpu nx ts gs (s.global_size - n) v1 (omega arith) (omega arith) in
    let nonempty : (s.global_size == 0) ≡ false = ground arith in
    let cut = take-append-drop (n - 1) gs in
    (
      s',
      (unfold global_run_queue_get in rw (nonempty, first, done)),
      record {
        valid = v'.valid;
        upcoming = v'.upcoming;
        own = v'.own;
        global = v'.global;
        counted = omega (arith, v'.counted, length-drop (n - 1) gs);
        once = moved-Distinct (take (n - 1) gs) (drop (n - 1) gs) ts (rw cut v.once.1);
      },
    )
