-- ===== src/Scheduler/Steal/Queues.antt =====
-- The two local queues of a steal against their lists: the victim without the batch, and the thief
-- with it.
use pentagon.Prelude.{
  ℕ, suc, ◌+◌, ◌-◌, ◌%◌, ◌≤◌, ◌≡◌, refl, sym, ap, ◌∙◌, Option, List, [], ◌∷◌, ◌++◌, arith, add32,
  length, take, drop, take-append, drop-append,
}
use pentagon.Scheduler.ThreadQueue.{Thread}
use pentagon.Scheduler.RunQueue.{LocalRunQueue, run_queue_len, size, window}
use pentagon.Scheduler.RunQueue.Window.{window-append, length-window}
use pentagon.Scheduler.RunQueue.Invariant.{IsValid, queued}
use pentagon.Scheduler.Steal.{copy}
use pentagon.Scheduler.Steal.Copy.{window-copy, window-copy-other}

-- A local queue that is valid and stands for a thread to run next and a list.
pub record Local (rq : LocalRunQueue) (nx : Option Thread) (ts : List Thread) : Type 0 where
  pub valid : IsValid rq
  pub upcoming : rq.next ≡ nx
  pub own : queued rq ≡ ts

pub length-Local :
    (rq : LocalRunQueue) {nx : Option Thread} {ts : List Thread}
    → Local rq nx ts
    → length ts ≡ size rq
length-Local rq v = ap length (sym v.own) ∙ length-window rq.queue rq.head (size rq)

-- The victim after `n` of its threads are taken.
abbrev pub robbed : LocalRunQueue → ℕ → LocalRunQueue
robbed rq n = record rq { head = add32 rq.head n }

pub robbed-Local :
    (rq : LocalRunQueue) (n : ℕ) (nx : Option Thread) (vs : List Thread)
    → Local rq nx vs
    → n ≤ size rq
    → Local (robbed rq n) nx (drop n vs) × (window rq.queue rq.head n ≡ take n vs)
robbed-Local rq n nx vs v le =
    let left : size (robbed rq n) ≡ size rq - n =
      omega (arith, v.valid.fits, v.valid.head_small, v.valid.tail_small) in
    let a = window rq.queue rq.head n in
    let b = window rq.queue (add32 rq.head n) (size rq - n) in
    let cut : vs ≡ a ++ b =
      sym v.own
      ∙ window-append rq.queue rq.head n (size rq - n) (size rq) (add32 rq.head n) (omega arith)
          refl v.valid.head_small in
    let la = sym (length-window rq.queue rq.head n) in
    (
      record {
        valid = record {
          head_small = omega arith;
          tail_small = v.valid.tail_small;
          fits = omega (arith, v.valid.fits);
        };
        upcoming = v.upcoming;
        own = rw (left, cut) (sym (drop-append n a b la));
      },
      rw cut (sym (take-append n a b la)),
    )

-- The thief with a batch of `m` threads and one more behind its tail, of which it queues `m`.
abbrev pub fed : LocalRunQueue → (ℕ → Thread) → ℕ → LocalRunQueue
fed rq b m = record rq { tail = add32 rq.tail m; queue = b }

pub fed-Local :
    (rq : LocalRunQueue) (q : ℕ → Thread) (h m : ℕ) (nx : Option Thread) (ts : List Thread)
    → Local rq nx ts
    → size rq + suc m ≤ run_queue_len
    → let b = copy q h rq.queue rq.tail (suc m) in
      Local (fed rq b m) nx (ts ++ window b rq.tail m)
      × (window b rq.tail m ++ (b (add32 rq.tail m % run_queue_len) ∷ []) ≡ window q h (suc m))
unfolding window
fed-Local rq q h m nx ts v room =
    let b = copy q h rq.queue rq.tail (suc m) in
    let grown : size (fed rq b m) ≡ size rq + m =
      omega (arith, v.valid.head_small, v.valid.tail_small) in
    let kept =
      window-copy-other q h rq.queue rq.tail (suc m) rq.head (size rq)
        (omega (arith, v.valid.head_small, v.valid.tail_small)) room in
    let joined =
      window-append b rq.head (size rq) m (size rq + m) rq.tail refl
        (omega (arith, v.valid.head_small, v.valid.tail_small)) v.valid.head_small in
    let last =
      window-append b rq.tail m 1 (suc m) (add32 rq.tail m) (omega arith) refl v.valid.tail_small in
    (
      record {
        valid = record {
          head_small = v.valid.head_small;
          tail_small = omega arith;
          fits = omega arith;
        };
        upcoming = v.upcoming;
        own = rw grown (joined ∙ ap (λ r. r ++ window b rq.tail m) (kept ∙ v.own));
      },
      sym last ∙ window-copy q h rq.queue rq.tail (suc m) (omega arith),
    )
