-- ===== src/Scheduler/RunQueue/PutPaths.antt =====
-- The two paths of `run_queue_put`: the thread goes to the end of the local queue or, when that is full, to the end
-- of the global one behind half of the local threads.
use pentagon.Prelude.{
  ℕ, suc, ◌+◌, ◌/◌, ◌%◌, ◌≤◌, ◌<◌, ◌≡◌, refl, sym, ap, ◌∙◌, true, Option, some, List, [], ◌∷◌, ◌++◌,
  append_assoc, arith, ltb, lt→ltb, le→ltb, if◌then◌else◌, length, length-append, take, drop,
  take-append, drop-append, NotIn, NotIn-of_append, Distinct, Distinct-append, Distinct-of_append,
  Apart-append, Apart-of_append, append-Apart, Apart-single, Apart-symm, add32, ==-refl,
}
use native.Mathlib.Decide.{dec_lt}
use pentagon.Scheduler.ThreadQueue.{Thread}
use pentagon.Scheduler.ThreadQueue.Refine.{push_back_all-Holds}
use pentagon.Scheduler.RunQueue.{
  LocalRunQueue, Scheduler, run_queue_len, size, window, set_local, store, link_batch, put_linked,
  global_run_queue_put_batch, run_queue_put_slow, run_queue_put_loop,
}
use pentagon.Scheduler.RunQueue.Window.{length-window, window-append, window-update}
use pentagon.Scheduler.RunQueue.Invariant.{
  IsValid, queued, Queues, set_local-Queues, link_batch-Batch, link_batch-Holds,
}

-- The lists after a put: the local one, then the global one.
abbrev pub after_put : Thread → List Thread → List Thread → List Thread × List Thread
after_put t ts gs =
    if ltb (length ts) run_queue_len
    then (ts ++ (t ∷ []), gs)
    else (drop (length ts / 2) ts, gs ++ (take (length ts / 2) ts ++ (t ∷ [])))

snoc-Distinct :
    (t : Thread) (gs ts : List Thread)
    → NotIn t (gs ++ ts)
    → Distinct (gs ++ ts)
    → Distinct (gs ++ (ts ++ (t ∷ [])))
snoc-Distinct t gs ts n d =
    rw (← append_assoc)
      (Distinct-append (gs ++ ts) (t ∷ []) d (tt, tt) (Apart-single (gs ++ ts) t n))

-- The fast path appends to the local queue.
pub store-IsValid :
    (rq : LocalRunQueue) (t : Thread)
    → IsValid rq
    → size rq < run_queue_len
    → IsValid (store rq t) × (queued (store rq t) ≡ queued rq ++ (t ∷ []))
store-IsValid rq t v lt =
    let grown : size (store rq t) ≡ suc (size rq) = omega arith in
    let i = rq.tail % run_queue_len in
    (
      record { head_small = v.head_small; tail_small = omega arith; fits = omega arith },
      rw grown (window-update rq.queue t rq.head (size rq) i lt (omega arith)),
    )

pub put_loop_fast :
    (f : ℕ) (s : Scheduler) (cpu : ℕ) (t : Thread)
    → size (s.local cpu) < run_queue_len
    → run_queue_put_loop (suc f) s cpu t ≡ some (set_local s cpu (store (s.local cpu) t))
unfolding run_queue_put_loop
put_loop_fast f s cpu t lt = rw (lt→ltb _ _ lt)

-- The slow path moves the first half of a full queue.
abbrev moved : LocalRunQueue → LocalRunQueue
moved rq = record rq { head = add32 rq.head (size rq / 2) }

abbrev batch : LocalRunQueue → Thread → List Thread
batch rq t = window rq.queue rq.head (size rq / 2) ++ (t ∷ [])

put_slow_moves :
    (s : Scheduler) (cpu : ℕ) (t : Thread)
    → let rq = s.local cpu in
      run_queue_put_slow s cpu t rq.head rq.tail
      ≡ (true, put_linked (set_local s cpu (moved rq)) (batch rq t) (size rq / 2 + 1))
unfolding run_queue_put_slow
put_slow_moves s cpu t = rw (==-refl (s.local cpu).head, run_queue_put_slow)

put_loop_slow :
    (f : ℕ) (s : Scheduler) (cpu : ℕ) (t : Thread)
    → run_queue_len ≤ size (s.local cpu)
    → let rq = s.local cpu in
      run_queue_put_loop (suc f) s cpu t
      ≡ some (put_linked (set_local s cpu (moved rq)) (batch rq t) (size rq / 2 + 1))
unfolding run_queue_put_loop
put_loop_slow f s cpu t le = rw (le→ltb _ _ le, put_slow_moves s cpu t)

moved-IsValid :
    (rq : LocalRunQueue)
    → IsValid rq
    → size rq ≡ run_queue_len
    → IsValid (moved rq) × (queued rq ≡ window rq.queue rq.head 128 ++ queued (moved rq))
moved-IsValid rq v e =
    let left : size (moved rq) ≡ 128 = omega arith in
    (
      record { head_small = omega arith; tail_small = v.tail_small; fits = omega arith },
      rw left (
          window-append rq.queue rq.head 128 128 (size rq) (add32 rq.head (size rq / 2))
            (omega arith) (omega arith) v.head_small),
    )

-- What is put on the global queue stands behind what is there.
put_linked-Queues :
    (s : Scheduler) (cpu : ℕ) (nx : Option Thread) (b ts gs : List Thread) (n : ℕ)
    → Queues s cpu nx ts gs
    → n ≡ length b
    → Distinct ((gs ++ b) ++ ts)
    → Queues (put_linked s b n) cpu nx ts (gs ++ b)
unfolding put_linked global_run_queue_put_batch
put_linked-Queues s cpu nx b ts gs n v e d =
    let outer = Distinct-of_append (gs ++ b) ts d in
    let inner = Distinct-of_append gs b outer.left in
    let linked = link_batch-Holds s.links s.global gs b (Apart-symm gs b inner.apart) v.global in
    record {
      valid = v.valid;
      upcoming = v.upcoming;
      own = v.own;
      global =
          push_back_all-Holds (link_batch s.links b) s.global _ gs b linked
            (link_batch-Batch s.links b inner.right) inner.apart;
      counted = omega (arith, v.counted, length-append gs b);
      once = d;
    }

put_loop-fast-Queues :
    (f : ℕ) (s : Scheduler) (cpu : ℕ) (t : Thread) (nx : Option Thread) (ts gs : List Thread)
    → Queues s cpu nx ts gs
    → NotIn t (gs ++ ts)
    → size (s.local cpu) < run_queue_len
    → (s' : Scheduler) × (run_queue_put_loop (suc f) s cpu t ≡ some s')
      × Queues s' cpu nx (ts ++ (t ∷ [])) gs
put_loop-fast-Queues f s cpu t nx ts gs v n lt =
    let rq = s.local cpu in
    let kept = store-IsValid rq t v.valid lt in
    (
      set_local s cpu (store rq t),
      put_loop_fast f s cpu t lt,
      set_local-Queues s cpu (store rq t) nx (ts ++ (t ∷ [])) gs kept.0 v.upcoming
          (kept.1 ∙ ap (λ r. r ++ (t ∷ [])) v.own) v.global v.counted
          (snoc-Distinct t gs ts n v.once),
    )

-- The distinctness of what a slow put moves.
split-Distinct :
    (t : Thread) (gs a b : List Thread)
    → NotIn t (gs ++ (a ++ b))
    → Distinct (gs ++ (a ++ b))
    → Distinct (gs ++ b) × Distinct ((gs ++ (a ++ (t ∷ []))) ++ b)
split-Distinct t gs a b n d =
    let outer = Distinct-of_append gs (a ++ b) d in
    let inner = Distinct-of_append a b outer.right in
    let ap = Apart-of_append gs a b outer.apart in
    let nt = NotIn-of_append t gs (a ++ b) n in
    let nab = NotIn-of_append t a b nt.1 in
    let at = Distinct-append a (t ∷ []) inner.left (tt, tt) (Apart-single a t nab.0) in
    let gt = Apart-append gs a (t ∷ []) ap.0 (Apart-single gs t nt.0) in
    let atb = append-Apart a (t ∷ []) b inner.apart (nab.1, tt) in
    (
      Distinct-append gs b outer.left inner.right ap.1,
      Distinct-append (gs ++ (a ++ (t ∷ []))) b
          (Distinct-append gs (a ++ (t ∷ [])) outer.left at gt) inner.right
          (append-Apart gs (a ++ (t ∷ [])) b ap.1 atb),
    )

put_loop-slow-Queues :
    (f : ℕ) (s : Scheduler) (cpu : ℕ) (t : Thread) (nx : Option Thread) (a b gs : List Thread)
    → Queues s cpu nx (a ++ b) gs
    → NotIn t (gs ++ (a ++ b))
    → size (s.local cpu) ≡ run_queue_len
    → a ≡ window (s.local cpu).queue (s.local cpu).head 128
    → b ≡ queued (moved (s.local cpu))
    → (s' : Scheduler) × (run_queue_put_loop (suc f) s cpu t ≡ some s')
      × Queues s' cpu nx b (gs ++ (a ++ (t ∷ [])))
put_loop-slow-Queues f s cpu t nx a b gs v n full ea eb =
    let rq = s.local cpu in
    let half : size rq / 2 ≡ 128 = omega arith in
    let ba : a ++ (t ∷ []) ≡ batch rq t = rw (half, ea) refl in
    let kept = moved-IsValid rq v.valid full in
    let d = split-Distinct t gs a b n v.once in
    let before =
      set_local-Queues s cpu (moved rq) nx b gs kept.0 v.upcoming (sym eb) v.global v.counted d.0 in
    (
      put_linked (set_local s cpu (moved rq)) (batch rq t) (size rq / 2 + 1),
      put_loop_slow f s cpu t (omega arith),
      rw ba (
          put_linked-Queues (set_local s cpu (moved rq)) cpu nx (batch rq t) b gs (size rq / 2 + 1)
            before
            (omega (
              arith,
              length-append (window rq.queue rq.head (size rq / 2)) (t ∷ []),
              length-window rq.queue rq.head (size rq / 2),
            ))
            (rw ba at d.1)),
    )

pub length-own :
    (s : Scheduler) (cpu : ℕ) (nx : Option Thread) (ts gs : List Thread)
    → Queues s cpu nx ts gs
    → length ts ≡ size (s.local cpu)
length-own s cpu nx ts gs v =
    ap length (sym v.own)
    ∙ length-window (s.local cpu).queue (s.local cpu).head (size (s.local cpu))

-- A slow put in terms of the list that the local queue stands for.
put_loop-full-Queues :
    (f : ℕ) (s : Scheduler) (cpu : ℕ) (t : Thread) (nx : Option Thread) (ts gs : List Thread)
    → Queues s cpu nx ts gs
    → NotIn t (gs ++ ts)
    → size (s.local cpu) ≡ run_queue_len
    → (s' : Scheduler) × (run_queue_put_loop (suc f) s cpu t ≡ some s')
      × Queues s' cpu nx (drop 128 ts) (gs ++ (take 128 ts ++ (t ∷ [])))
put_loop-full-Queues f s cpu t nx ts gs v n full =
    let rq = s.local cpu in
    let a = window rq.queue rq.head 128 in
    let b = queued (moved rq) in
    let cut : ts ≡ a ++ b = sym v.own ∙ (moved-IsValid rq v.valid full).1 in
    let la = sym (length-window rq.queue rq.head 128) in
    rw (cut, take-append 128 a b la, drop-append 128 a b la)
      (put_loop-slow-Queues f s cpu t nx a b gs (rw cut at v) (rw cut at n) full refl refl)

-- One round of the loop puts the thread, whichever path it takes.
pub put_loop-Queues :
    (f : ℕ) (s : Scheduler) (cpu : ℕ) (t : Thread) (nx : Option Thread) (ts gs : List Thread)
    → Queues s cpu nx ts gs
    → NotIn t (gs ++ ts)
    → (s' : Scheduler) × (run_queue_put_loop (suc f) s cpu t ≡ some s')
      × Queues s' cpu nx (after_put t ts gs).0 (after_put t ts gs).1
put_loop-Queues f s cpu t nx ts gs v n =
    let len = length-own s cpu nx ts gs v in
    elim (dec_lt (length ts) run_queue_len) [
      | yes lt ↦ rw (lt→ltb _ _ lt) (put_loop-fast-Queues f s cpu t nx ts gs v n (omega arith))
      | no ge ↦
          let full : length ts ≡ run_queue_len = omega (arith, v.valid.fits) in
          rw (full) (put_loop-full-Queues f s cpu t nx ts gs v n (omega arith))
    ]
