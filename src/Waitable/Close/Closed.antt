-- ===== src/Waitable/Close/Closed.antt =====
-- `waitable_close` and the waiters it releases.
use pentagon.Prelude.{
  Apart-symm, false, inl, inr, ◌≤◌, ◌+◌, ◌==◌, ◌||◌, not, Bool-cases, true, ◌≤◌, ◌+◌, update, Bool,
  ℕ, zero, suc, ◌<◌, ◌≡◌, refl, sym, ap, subst, ◌∙◌, arith, append-nil, append_assoc, Option, none,
  some, List, [], ◌∷◌, ◌++◌, length, NotIn, Distinct,
}
use pentagon.Scheduler.ThreadQueue.Refine.{Chain, Chain-update}
use pentagon.Waitable.Channel.Valid.{IsValid, IsQueue-agree}
use pentagon.Waitable.Close.Woken.{next_done, woken}
use pentagon.Waitable.Close.ReleaseAll.{readied, AllFail, release_all-Released, readied-Distinct}
use pentagon.Waitable.Close.{
  waitable_closed, WaitResult, release_all, Waitable, ThreadRef, Store, WaitingRef, ready_all,
  waitable_close, send_resumed, wait_resumed,
}

ready_all-Chain :
    (f : ℕ) (s : Store) (h : Option ThreadRef) (ts ready : List ThreadRef)
    → Chain s.sched_link h ts
    → Distinct ts
    → length ts < f
    → let r = ready_all f s h ready in
      (r.1 ≡ ready ++ ts)
      × (r.0.next ≡ s.next)
      × (r.0.prev ≡ s.prev)
      × (r.0.thread ≡ s.thread)
      × (r.0.select_done ≡ s.select_done)
      × (r.0.success ≡ s.success)
unfolding ready_all
ready_all-Chain zero s h ts ready c d lt = absurd (omega (arith, lt))
ready_all-Chain (suc f) s none [] ready c d lt =
    (sym (append-nil ready), refl, refl, refl, refl, refl)
ready_all-Chain (suc f) s (some t) [] ready c d lt = absurd cc
ready_all-Chain (suc f) s none (y ∷ ts) ready c d lt = let h = c.0 in absurd cc
ready_all-Chain (suc f) s (some t) (y ∷ ts) ready c d lt =
    let head = c.0 in
    let e : t ≡ y = cc in
    let apart : NotIn t ts = rw e d.0 in
    let rest : Chain s.sched_link (s.sched_link t) ts = rw e c.1 in
    let r =
      ready_all-Chain f (record s { sched_link = update s.sched_link t none }) (s.sched_link t) ts
        (ready ++ (t ∷ [])) (Chain-update s.sched_link t none (s.sched_link t) ts apart rest) d.1
        (omega (arith, lt)) in
    let order : (ready ++ (t ∷ [])) ++ ts ≡ ready ++ (y ∷ ts) =
      append_assoc ready (t ∷ []) ts ∙ ap (λ u. ready ++ (u ∷ ts)) e in
    (r.0 ∙ order, r.1, r.2, r.3, r.4, r.5)

woken-length :
    (thread : WaitingRef → ThreadRef) (is_select : WaitingRef → Bool) (done : ThreadRef → ℕ)
    (xs : List WaitingRef)
    → length (woken thread is_select done xs).0 ≤ length xs
woken-length thread is_select done [] = omega arith
woken-length thread is_select done (x ∷ xs) =
    let skipped = woken-length thread is_select done xs in
    let taken = woken-length thread is_select (next_done done (thread x) (is_select x)) xs in
    elim (Bool-cases (not (is_select x) || (done (thread x) == 0))) [
      | inl e ↦ rw e (omega (arith, taken))
      | inr e ↦ rw e (omega (arith, skipped))
    ]

readied-length :
    (thread : WaitingRef → ThreadRef) (xs : List WaitingRef) (ts : List ThreadRef)
    → length (readied thread xs ts) ≡ length xs + length ts
readied-length thread [] ts = omega arith
readied-length thread (x ∷ xs) ts = omega (arith, readied-length thread xs (thread x ∷ ts))

-- The entries that a close wakes, of the waiters and of the senders, and the order in which their
-- threads are readied: the last one first.
abbrev pub failed_waiters : Waitable → List WaitingRef → List WaitingRef × (ThreadRef → ℕ)
failed_waiters w ws = woken w.store.thread w.store.is_select w.store.select_done ws

abbrev pub failed_senders :
    Waitable → List WaitingRef → List WaitingRef → List WaitingRef × (ThreadRef → ℕ)
failed_senders w ws ss = woken w.store.thread w.store.is_select (failed_waiters w ws).1 ss

abbrev pub close_order : Waitable → List WaitingRef → List WaitingRef → List ThreadRef
close_order w ws ss =
    readied w.store.thread (failed_senders w ws ss).0
      (readied w.store.thread (failed_waiters w ws).0 [])

AllFail-still :
    (g g' : WaitingRef → Bool) (xs : List WaitingRef)
    → ((a : WaitingRef) → g a ≡ false → g' a ≡ false)
    → AllFail g xs
    → AllFail g' xs
AllFail-still g g' [] h p = tt
AllFail-still g g' (x ∷ xs) h p = (h x p.0, AllFail-still g g' xs h p.1)

close_order-length :
    (w : Waitable) (ws ss : List WaitingRef) (f : ℕ)
    → length ws + length ss < f
    → length (close_order w ws ss) < f
close_order-length w ws ss f lt =
    let s = w.store in
    let a = failed_waiters w ws in
    let b = failed_senders w ws ss in
    omega (
      arith,
      lt,
      woken-length s.thread s.is_select s.select_done ws,
      woken-length s.thread s.is_select a.1 ss,
      readied-length s.thread a.0 [],
      readied-length s.thread b.0 (readied s.thread a.0 []),
    )

-- A waitable after its close.
pub record Closed (w : Waitable) (ws ss : List WaitingRef) (r : Waitable) : Type 0 where
  pub closed : r.closed ≡ true
  pub valid : IsValid r [] []
  pub ready : r.ready ≡ w.ready ++ close_order w ws ss
  pub count : r.count ≡ w.count
  pub done : r.store.select_done ≡ (failed_senders w ws ss).1
  pub waiters : AllFail r.store.success (failed_waiters w ws).0
  pub senders : AllFail r.store.success (failed_senders w ws ss).0

-- A waitable that is not closed and well formed, with no thread in the close order twice, is closed
-- and well formed with both queues empty after `waitable_close`, given fuel above the length of both;
-- the tokens stay, every entry that wakes its thread (a select wakes for one entry only) is marked as
-- failed, and the threads are readied, each once, in the close order.
pub waitable_close-Closed :
    (f : ℕ) (w : Waitable) (ws ss : List WaitingRef)
    → IsValid w ws ss
    → w.closed ≡ false
    → length ws + length ss < f
    → Distinct (close_order w ws ss)
    → Closed w ws ss (waitable_close f w)
unfolding waitable_close
waitable_close-Closed f w ws ss v o lt d =
    let s = w.store in
    let a = failed_waiters w ws in
    let ts = readied s.thread a.0 [] in
    let r1 = release_all f f s w.wait_queue none in
    let h1 =
      release_all-Released f f s w.wait_queue none ws [] v.waiting (omega (arith, lt))
        (omega (arith, lt)) refl (readied-Distinct s.thread (failed_senders w ws ss).0 ts d) in
    let queue =
      IsQueue-agree s r1.0 w.send_queue ss ws h1.kept (Apart-symm ws ss v.apart) v.sending in
    let same : failed_senders w ws ss ≡ woken r1.0.thread r1.0.is_select r1.0.select_done ss =
      rw (h1.thread, h1.is_select, h1.done) refl in
    let r2 = release_all f f r1.0 w.send_queue r1.2 in
    let h2 =
      release_all-Released f f r1.0 w.send_queue r1.2 ss ts queue (omega (arith, lt))
        (omega (arith, lt)) h1.chain (rw⁻¹ same (rw h1.thread d)) in
    let order : readied r1.0.thread (woken r1.0.thread r1.0.is_select r1.0.select_done ss).0 ts
        ≡ close_order w ws ss =
      rw⁻¹ same (rw h1.thread refl) in
    let chain = subst (Chain r2.0.sched_link r2.2) order h2.chain in
    let r3 =
      ready_all-Chain f r2.0 r2.2 (close_order w ws ss) w.ready chain d
        (close_order-length w ws ss f lt) in
    let kept = r3.5 in
    rw o (record {
      closed = refl;
      valid = record {
        waiting = record {
          segment = tt;
          first = h1.rest.first;
          last = h1.rest.last;
          distinct = tt;
        };
        sending = record {
          segment = tt;
          first = h2.rest.first;
          last = h2.rest.last;
          distinct = tt;
        };
        apart = tt;
        bounded = v.bounded;
        no_token = inl refl;
        no_room = inl refl;
        after_close = λ e. (refl, refl);
      };
      ready = r3.0;
      count = refl;
      done = r3.4 ∙ h2.done ∙ sym (ap (λ (b : List WaitingRef × (ThreadRef → ℕ)). b.1) same);
      waiters = rw kept (AllFail-still r1.0.success r2.0.success a.0 h2.still h1.failed);
      senders = rw (kept, same) h2.failed;
    })

-- What the parked threads answer.
abbrev pub WaitsAnswer : WaitResult → Store → List WaitingRef → Type 0
WaitsAnswer answer s [] = Unit
WaitsAnswer answer s (x ∷ xs) = (wait_resumed s x ≡ answer) × WaitsAnswer answer s xs

abbrev pub SendsAnswer : Bool → Store → List WaitingRef → Type 0
SendsAnswer answer s [] = Unit
SendsAnswer answer s (x ∷ xs) = (send_resumed s x ≡ answer) × SendsAnswer answer s xs

wait_resumed-AllFail :
    (s : Store) (xs : List WaitingRef) → AllFail s.success xs → WaitsAnswer waitable_closed s xs
unfolding wait_resumed
wait_resumed-AllFail s [] h = tt
wait_resumed-AllFail s (x ∷ xs) h = (rw h.0 refl, wait_resumed-AllFail s xs h.1)

send_resumed-AllFail :
    (s : Store) (xs : List WaitingRef) → AllFail s.success xs → SendsAnswer false s xs
unfolding send_resumed
send_resumed-AllFail s [] h = tt
send_resumed-AllFail s (x ∷ xs) h = (rw h.0 refl, send_resumed-AllFail s xs h.1)

waitable_close-closed : (f : ℕ) (w : Waitable) → w.closed ≡ true → waitable_close f w ≡ w
unfolding waitable_close
waitable_close-closed f w c = rw c refl

-- After the close of a waitable that is not closed and well formed, with no thread in the close order
-- twice and fuel above the length of both queues, every receiver that the close woke answers
-- WAITABLE_CLOSED and every sender that it woke answers false; a second close changes nothing.
pub waitable_close-answers :
    (f g : ℕ) (w : Waitable) (ws ss : List WaitingRef)
    → IsValid w ws ss
    → w.closed ≡ false
    → length ws + length ss < f
    → Distinct (close_order w ws ss)
    → WaitsAnswer waitable_closed (waitable_close f w).store (failed_waiters w ws).0
      × SendsAnswer false (waitable_close f w).store (failed_senders w ws ss).0
      × (waitable_close g (waitable_close f w) ≡ waitable_close f w)
waitable_close-answers f g w ws ss v o lt d =
    let c = waitable_close-Closed f w ws ss v o lt d in
    let r = waitable_close f w in
    (
      wait_resumed-AllFail r.store (failed_waiters w ws).0 c.waiters,
      send_resumed-AllFail r.store (failed_senders w ws ss).0 c.senders,
      waitable_close-closed g r c.closed,
    )
