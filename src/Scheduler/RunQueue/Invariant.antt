-- ===== src/Scheduler/RunQueue/Invariant.antt =====
-- What holds of the run queues between two calls: the local queue of one CPU stands for the list
-- `ts`, the global queue for the list `gs`.
use pentagon.Prelude.{
  ℕ, ◌^◌, ◌≤◌, ◌<◌, ◌≡◌, refl, Option, some, List, [], ◌∷◌, ◌++◌, arith, update, update_self,
  ==-refl, length, first?, last?, NotIn, Distinct, Apart,
}
use pentagon.Scheduler.ThreadQueue.{Thread, Links, ThreadQueue}
use pentagon.Scheduler.ThreadQueue.Refine.{Holds, Chain, Chain-update, Linked, Batch}
use pentagon.Scheduler.RunQueue.{
  LocalRunQueue, Scheduler, run_queue_len, size, window, link_batch, set_local, cas_head, cas_head,
}

pub record IsValid (rq : LocalRunQueue) : Type 0 where
  pub head_small : rq.head < 2 ^ 32
  pub tail_small : rq.tail < 2 ^ 32
  pub fits : size rq ≤ run_queue_len

abbrev pub queued : LocalRunQueue → List Thread
queued rq = window rq.queue rq.head (size rq)

pub record Queues (s : Scheduler) (cpu : ℕ) (nx : Option Thread) (ts gs : List Thread)
    : Type 0 where
  pub valid : IsValid (s.local cpu)
  pub upcoming : (s.local cpu).next ≡ nx
  pub own : queued (s.local cpu) ≡ ts
  pub global : Holds s.links s.global gs
  pub counted : s.global_size ≡ length gs
  pub once : Distinct (gs ++ ts)

-- Linking a batch writes only to its threads.
link_batch-other :
    (l : Links) (a : Thread) (ts : List Thread) → NotIn a ts → link_batch l ts a ≡ l a
unfolding link_batch
link_batch-other l a [] n = refl
link_batch-other l a (t ∷ []) n = refl
link_batch-other l a (t ∷ u ∷ ts) n =
    let ih = link_batch-other (update l t (some u)) a (u ∷ ts) n.1 in ground (arith, ih, n.0)

link_batch-Linked : (l : Links) (ts : List Thread) → Distinct ts → Linked (link_batch l ts) ts
unfolding link_batch
link_batch-Linked l [] d = tt
link_batch-Linked l (t ∷ []) d = tt
link_batch-Linked l (t ∷ u ∷ ts) d =
    let same = link_batch-other (update l t (some u)) t (u ∷ ts) d.0 in
    (ground (arith, same), link_batch-Linked (update l t (some u)) (u ∷ ts) d.1)

pub link_batch-Batch :
    (l : Links) (ts : List Thread)
    → Distinct ts
    → Batch (link_batch l ts) (record { head = first? ts; tail = last? ts }) ts
link_batch-Batch l ts d = record {
  first = refl;
  last = refl;
  linked = link_batch-Linked l ts d;
  distinct = d;
}

link_batch-Chain :
    (l : Links) (h : Option Thread) (gs ts : List Thread)
    → Apart ts gs
    → Chain l h gs
    → Chain (link_batch l ts) h gs
unfolding link_batch
link_batch-Chain l h gs [] p c = c
link_batch-Chain l h gs (t ∷ []) p c = c
link_batch-Chain l h gs (t ∷ u ∷ ts) p c =
    link_batch-Chain (update l t (some u)) h gs (u ∷ ts) p.1 (Chain-update l t (some u) h gs p.0 c)

pub link_batch-Holds :
    (l : Links) (q : ThreadQueue) (gs ts : List Thread)
    → Apart ts gs
    → Holds l q gs
    → Holds (link_batch l ts) q gs
link_batch-Holds l q gs ts p v = record {
  chain = link_batch-Chain l q.head gs ts p v.chain;
  last = v.last;
  distinct = v.distinct;
}

-- A new local queue of the CPU under an unchanged global one.
pub set_local-Queues :
    (s : Scheduler) (cpu : ℕ) (rq : LocalRunQueue) (nx : Option Thread) (ts gs : List Thread)
    → IsValid rq
    → rq.next ≡ nx
    → queued rq ≡ ts
    → Holds s.links s.global gs
    → s.global_size ≡ length gs
    → Distinct (gs ++ ts)
    → Queues (set_local s cpu rq) cpu nx ts gs
set_local-Queues s cpu rq nx ts gs v u e h c d =
    let same = update_self s.local cpu rq in
    record {
      valid = rw same v;
      upcoming = rw same u;
      own = rw same e;
      global = h;
      counted = c;
      once = d;
    }

-- The compare-exchange of a word that nobody has changed succeeds.
pub cas_head-eq-some :
    (rq : LocalRunQueue) (new : ℕ) → cas_head rq rq.head new ≡ some (record rq { head = new })
cas_head-eq-some rq new = rw ==-refl
