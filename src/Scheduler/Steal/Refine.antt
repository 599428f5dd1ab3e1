-- ===== src/Scheduler/Steal/Refine.antt =====
-- `run_queue_steal`: half of the victim's threads go to the thief, and none is lost.
use pentagon.Prelude.{
  ℕ, zero, suc, ◌+◌, ◌%◌, ◌^◌, ◌≤◌, ◌<◌, ◌≡◌, ◌≢◌, refl, sym, ap, ◌∙◌, Bool, true, false, Option,
  none, some, List, [], ◌∷◌, ◌++◌, append-nil, ◌⊎◌, inl, inr, arith, lt→ltb, le→ltb, ◌==◌, ==-refl,
  update_self, update-ne, add32, sub32, length, take, drop,
}
use pentagon.Scheduler.ThreadQueue.{Thread}
use pentagon.Scheduler.RunQueue.{LocalRunQueue, Scheduler, run_queue_len, size, set_local, window}
use pentagon.Scheduler.Steal.{
  copy, Grab, upper_half, grab_next, grab_empty, grab_round, run_queue_grab, steal_finish,
  run_queue_steal,
}
use pentagon.Scheduler.Steal.Queues.{Local, length-Local, robbed, fed, robbed-Local, fed-Local}

grab_round-some :
    (s : Scheduler) (victim : ℕ) (b : ℕ → Thread) (bh : ℕ) (steal : Bool) (again : Option Grab)
    (m : ℕ)
    → m < 128
    → let orq = s.local victim in
      grab_round s victim b bh steal again (suc m)
      ≡ some (suc m, copy orq.queue orq.head b bh (suc m), set_local s victim (robbed orq (suc m)))
unfolding grab_round
grab_round-some s victim b bh steal again m lt =
    let nonzero : (suc m == 0) ≡ false = ground arith in
    rw (nonzero, le→ltb 128 (suc m) (omega arith), ==-refl (s.local victim).head)

grab_some :
    (s : Scheduler) (victim : ℕ) (b : ℕ → Thread) (bh : ℕ) (steal : Bool) (m : ℕ)
    → let orq = s.local victim in
      upper_half (size orq) ≡ suc m
      → m < 128
      → run_queue_grab 1 s victim b bh steal
        ≡ some
            (suc m, copy orq.queue orq.head b bh (suc m), set_local s victim (robbed orq (suc m)))
unfolding run_queue_grab
grab_some s victim b bh steal m e lt =
    ap (grab_round s victim b bh steal none) e ∙ grab_round-some s victim b bh steal none m lt

grab_none :
    (s : Scheduler) (victim : ℕ) (b : ℕ → Thread) (bh : ℕ) (steal : Bool)
    → size (s.local victim) ≡ 0
    → run_queue_grab 1 s victim b bh steal ≡ some (grab_empty s victim b bh steal)
unfolding run_queue_grab grab_round
grab_none s victim b bh steal e =
    ap (grab_round s victim b bh steal none) {x = upper_half (size (s.local victim))} {y = 0}
      (omega arith)

grab_empty_nothing :
    (s : Scheduler) (victim : ℕ) (b : ℕ → Thread) (bh : ℕ) (steal : Bool)
    → (steal ≡ false) ⊎ ((s.local victim).next ≡ none)
    → grab_empty s victim b bh steal ≡ (0, b, s)
unfolding grab_empty grab_next
grab_empty_nothing s victim b bh false why = refl
grab_empty_nothing s victim b bh true (inl e) = cc
grab_empty_nothing s victim b bh true (inr e) = ap (grab_next s victim b bh) e

finish_some :
    (cpu t m : ℕ) (b : ℕ → Thread) (s : Scheduler)
    → t ≡ (s.local cpu).tail
    → t < 2 ^ 32
    → sub32 t (s.local cpu).head + m < run_queue_len
    → steal_finish cpu t (suc m, b, s)
      ≡ some (some (b (add32 t m % run_queue_len)), set_local s cpu (fed (s.local cpu) b m))
unfolding steal_finish
finish_some cpu t zero b s e lt room =
    ap
      (λ k. some (
        some (b (add32 t 0 % run_queue_len)),
        set_local s cpu (record (s.local cpu) { tail = k; queue = b }),
      ))
      (omega arith)
finish_some cpu t (suc m) b s e lt room =
    let nonzero : (suc m == 0) ≡ false = ground arith in
    rw (nonzero, lt→ltb (add32 (sub32 t (s.local cpu).head) (suc m)) run_queue_len (omega arith))
      (ap
        (λ k. some (
          some (b (add32 t (suc m) % run_queue_len)),
          set_local s cpu (record (s.local cpu) { tail = k; queue = b }),
        ))
        (omega arith))

-- What a steal leaves: the thread `x`, the queues of the thief and of the victim, and all else as
-- it was.
pub record Stolen (s s' : Scheduler) (cpu victim : ℕ) (nx vnx : Option Thread) (ts vs : List Thread)
    : Type 0 where
  pub thief : Local (s'.local cpu) nx ts
  pub victim_left : Local (s'.local victim) vnx vs
  pub others : (k : ℕ) → cpu ≢ k → victim ≢ k → s'.local k ≡ s.local k
  pub same_global : s'.global ≡ s.global
  pub same_size : s'.global_size ≡ s.global_size
  pub same_links : (t : Thread) → s'.links t ≡ s.links t

module _ (s : Scheduler) (cpu victim : ℕ) (nx vnx : Option Thread) (ts vs : List Thread)
    (apart : victim ≢ cpu) (own : Local (s.local cpu) nx ts)
    (other : Local (s.local victim) vnx vs) where
  -- A victim with threads in its array loses the first half of them, rounded up: the thief returns
  -- the last of these and queues the others in order behind its own.
  pub steal-half :
      (steal : Bool) (m : ℕ)
      → upper_half (length vs) ≡ suc m
      → length ts + suc m ≤ run_queue_len
      → (s' : Scheduler) × (x : Thread) × (a : List Thread) × (run_queue_steal s cpu victim steal
          ≡ some (some x, s'))
        × (a ++ (x ∷ []) ≡ take (suc m) vs)
        × Stolen s s' cpu victim nx vnx (ts ++ a) (drop (suc m) vs)
  steal-half steal m half room =
      let rq = s.local cpu in
      let orq = s.local victim in
      let lo = length-Local rq own in
      let lv = length-Local orq other in
      let b = copy orq.queue orq.head rq.queue rq.tail (suc m) in
      let s1 : Scheduler = set_local s victim (robbed orq (suc m)) in
      let kept : s1.local cpu ≡ rq = update-ne s.local victim cpu (robbed orq (suc m)) apart in
      let s2 : Scheduler = set_local s1 cpu (fed (s1.local cpu) b m) in
      let (took, batch) = robbed-Local orq (suc m) vnx vs other (omega arith) in
      let (gave, split) = fed-Local rq orq.queue orq.head m nx ts own (omega arith) in
      let grabbed =
        grab_some s victim rq.queue rq.tail steal m (omega arith)
          (omega (arith, other.valid.fits)) in
      let ended =
        finish_some cpu rq.tail m b s1 (rw kept) own.valid.tail_small (rw kept (omega arith)) in
      let thief_eq : s2.local cpu ≡ fed rq b m =
        update_self s1.local cpu (fed (s1.local cpu) b m) ∙ ap (λ r. fed r b m) kept in
      let victim_eq : s2.local victim ≡ robbed orq (suc m) =
        update-ne s1.local cpu victim (fed (s1.local cpu) b m) (λ e. apart (sym e))
        ∙ update_self s.local victim (robbed orq (suc m)) in
      (
        s2,
        b (add32 rq.tail m % run_queue_len),
        window b rq.tail m,
        (unfold run_queue_steal in rw grabbed ended),
        split ∙ batch,
        record {
          thief = rw thief_eq gave;
          victim_left = rw victim_eq took;
          others = λ k c v.
              update-ne s1.local cpu k (fed (s1.local cpu) b m) c
              ∙ update-ne s.local victim k (robbed orq (suc m)) v;
          same_global = refl;
          same_size = refl;
          same_links = λ t. refl;
        },
      )

  -- A victim with nothing but a thread to run next loses that, where the thief asks for it.
  pub steal-next :
      (t : Thread)
      → vs ≡ []
      → vnx ≡ some t
      → length ts < run_queue_len
      → (s' : Scheduler) × (run_queue_steal s cpu victim true ≡ some (some t, s'))
        × Stolen s s' cpu victim nx none ts []
  steal-next t none_queued next room =
      let rq = s.local cpu in
      let orq = s.local victim in
      let lo = length-Local rq own in
      let lv : length vs ≡ size orq = length-Local orq other in
      let lz : length vs ≡ 0 = ap length none_queued in
      let b = copy (λ _. t) 0 rq.queue rq.tail 1 in
      let left : LocalRunQueue = record orq { next = none } in
      let s1 : Scheduler = set_local s victim left in
      let kept : s1.local cpu ≡ rq = update-ne s.local victim cpu left apart in
      let s2 : Scheduler = set_local s1 cpu (fed (s1.local cpu) b 0) in
      let (gave, split) = fed-Local rq (λ _. t) 0 0 nx ts own (omega arith) in
      let grabbed : run_queue_grab 1 s victim rq.queue rq.tail true ≡ some (1, b, s1) =
        grab_none s victim rq.queue rq.tail true (omega arith)
        ∙ (unfold grab_empty grab_next copy in rw (other.upcoming ∙ next)) in
      let ended =
        finish_some cpu rq.tail 0 b s1 (rw kept) own.valid.tail_small (rw kept (omega arith)) in
      let thief_eq : s2.local cpu ≡ fed rq b 0 =
        update_self s1.local cpu (fed (s1.local cpu) b 0) ∙ ap (λ r. fed r b 0) kept in
      let victim_eq : s2.local victim ≡ left =
        update-ne s1.local cpu victim (fed (s1.local cpu) b 0) (λ e. apart (sym e))
        ∙ update_self s.local victim left in
      let single : b (add32 rq.tail 0 % run_queue_len) ∷ [] ≡ t ∷ [] = unfold window in split in
      let same : b (add32 rq.tail 0 % run_queue_len) ≡ t = cc in
      let gave' : Local (fed rq b 0) nx ts = unfold window in (rw append-nil at gave) in
      (
        s2,
        (unfold run_queue_steal in rw grabbed (rw same at ended)),
        record {
          thief = rw thief_eq gave';
          victim_left = rw victim_eq (record {
            valid = record {
              head_small = other.valid.head_small;
              tail_small = other.valid.tail_small;
              fits = other.valid.fits;
            };
            upcoming = refl;
            own = other.own ∙ none_queued;
          });
          others = λ k c v.
              update-ne s1.local cpu k (fed (s1.local cpu) b 0) c
              ∙ update-ne s.local victim k left v;
          same_global = refl;
          same_size = refl;
          same_links = λ t. refl;
        },
      )

  -- Otherwise nothing is there to steal, and nothing changes.
  pub steal-nothing :
      (steal : Bool)
      → vs ≡ []
      → (steal ≡ false) ⊎ (vnx ≡ none)
      → run_queue_steal s cpu victim steal ≡ some (none, s)
  steal-nothing steal none_queued why =
      let rq = s.local cpu in
      let lv : length vs ≡ size (s.local victim) = length-Local (s.local victim) other in
      let lz : length vs ≡ 0 = ap length none_queued in
      let grabbed = grab_none s victim rq.queue rq.tail steal (omega arith) in
      let empty = grab_empty_nothing s victim rq.queue rq.tail steal (rw other.upcoming why) in
      unfold run_queue_steal steal_finish in rw (grabbed, empty)
