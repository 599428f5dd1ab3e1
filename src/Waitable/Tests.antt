-- ===== src/Waitable/Tests.antt =====
-- The wait queues and a waitable at concrete values.
use pentagon.Prelude.{
  ◌<◌, ◌^◌, ◌%◌, ◌*◌, Distinct, ℕ, SameElements, ◌+◌, ◌≡◌, refl, inl, inr, arith, true, false, none,
  some, [], ◌∷◌, ◌==◌, if◌then◌else◌,
}
use pentagon.Waitable.WaitQueue.{Store, WaitQueue, no_queue, wait_queue_dequeue_wt}
use pentagon.Waitable.WaitQueue.Refine.{IsQueue}
use pentagon.Waitable.WaitQueue.Dequeue.{winner}
use pentagon.Waitable.WaitQueue.Remove.{Removed, wait_queue_dequeue_wt-Removed}
use pentagon.Waitable.Select.{poll_order, waitable_select_lock, waitable_select_unlock, select_park}
use pentagon.Waitable.Select.Shuffle.{poll_order-SameElements}
use pentagon.Waitable.Select.Taken.{IsIn}
use pentagon.Waitable.Select.Locks.{reverse, listed, select_unlock-reverse}
use pentagon.Waitable.Select.Poll.{select_receive, as_selected}
use pentagon.Waitable.Select.Offer.{select_send, as_offered, select_polls}
use pentagon.Waitable.Close.{waitable_close}
use pentagon.Waitable.Close.Closed.{
  Closed, WaitsAnswer, SendsAnswer, waitable_close-Closed, waitable_close-answers,
}
use pentagon.Waitable.Channel.{waitable_closed, Waitable, waitable_send, waitable_wait}
use pentagon.Waitable.Channel.Valid.{IsValid}
use pentagon.Waitable.Channel.SendLocked.{Sent}
use pentagon.Waitable.Channel.Send.{waitable_send-Sent}
use pentagon.Waitable.Channel.WaitLocked.{Waited}
use pentagon.Waitable.Channel.Wait.{waitable_wait-Waited}

-- Entries 1, 2 and 3 of the threads 51, 52 and 53 are linked; the select of thread 51 is done.
abbrev store : Store
store = record {
  thread = λ wt. wt + 50;
  next = λ wt. if wt == 1 then some 2 else (if wt == 2 then some 3 else none);
  prev = λ wt. if wt == 2 then some 1 else (if wt == 3 then some 2 else none);
  is_select = λ wt. wt == 1;
  success = λ wt. false;
  select_done = λ t. if t == 51 then 1 else 0;
  waker = λ t. none;
  sched_link = λ t. none;
}

abbrev queue : WaitQueue
queue = record { first = some 1; last = some 3 }

queue-IsQueue : IsQueue store queue (1 ∷ 2 ∷ 3 ∷ [])
queue-IsQueue = record {
  segment = (refl, refl, (refl, refl, (refl, refl, tt)));
  first = refl;
  last = refl;
  distinct = omega arith;
}

wait_queue_dequeue_wt-Removed_example : Removed 2 (1 ∷ 3 ∷ []) (wait_queue_dequeue_wt store queue 2)
wait_queue_dequeue_wt-Removed_example =
    wait_queue_dequeue_wt-Removed store queue 2 (1 ∷ []) (3 ∷ []) queue-IsQueue

-- A waitable with room for two tokens and none in it, on which three threads wait.
abbrev empty_waitable : Waitable
empty_waitable = record {
  store = store;
  count = 0;
  size = 2;
  closed = false;
  wait_queue = queue;
  send_queue = no_queue;
  ready = [];
}

empty_waitable-IsValid : IsValid empty_waitable (1 ∷ 2 ∷ 3 ∷ []) []
empty_waitable-IsValid = record {
  waiting = queue-IsQueue;
  sending = record { segment = tt; first = refl; last = refl; distinct = tt };
  apart = (tt, (tt, (tt, tt)));
  bounded = omega arith;
  no_token = inr refl;
  no_room = inl refl;
  after_close = λ e. cc;
}

-- Thread 52 gets the token.
waitable_send-Sent_example :
    Sent empty_waitable (some 2) (3 ∷ []) [] 9 true (waitable_send 4 empty_waitable 59 9 true)
unfolding winner
waitable_send-Sent_example =
    waitable_send-Sent 4 empty_waitable (1 ∷ 2 ∷ 3 ∷ []) [] 59 9 true empty_waitable-IsValid tt
      (omega arith)

-- A full one, on which three threads send.
abbrev full_waitable : Waitable
full_waitable = record empty_waitable { count = 2; wait_queue = no_queue; send_queue = queue }

full_waitable-IsValid : IsValid full_waitable [] (1 ∷ 2 ∷ 3 ∷ [])
full_waitable-IsValid = record {
  waiting = record { segment = tt; first = refl; last = refl; distinct = tt };
  sending = queue-IsQueue;
  apart = tt;
  bounded = omega arith;
  no_token = inl refl;
  no_room = inr refl;
  after_close = λ e. cc;
}

waitable_wait-Waited_example :
    Waited full_waitable (some 2) [] (3 ∷ []) 9 false (waitable_wait 4 full_waitable 59 9 false)
unfolding winner
waitable_wait-Waited_example =
    waitable_wait-Waited 4 full_waitable [] (1 ∷ 2 ∷ 3 ∷ []) 59 9 false full_waitable-IsValid tt
      (omega arith)

-- The threads 52 and 53 are woken by the close; the select of thread 51 is not.
waitable_close-Closed_example :
    Closed empty_waitable (1 ∷ 2 ∷ 3 ∷ []) [] (waitable_close 4 empty_waitable)
waitable_close-Closed_example =
    waitable_close-Closed 4 empty_waitable (1 ∷ 2 ∷ 3 ∷ []) [] empty_waitable-IsValid refl
      (omega arith) (omega arith)

waitable_close-answers_example :
    let r = waitable_close 4 full_waitable in
    WaitsAnswer waitable_closed r.store []
    × SendsAnswer false r.store (2 ∷ 3 ∷ [])
    × (waitable_close 1 r ≡ r)
waitable_close-answers_example =
    waitable_close-answers 4 1 full_waitable [] (1 ∷ 2 ∷ 3 ∷ []) full_waitable-IsValid refl
      (omega arith) (omega arith)

abbrev random_bits : ℕ → ℕ
random_bits k = k * 3000000000 % 2 ^ 32

poll_order-SameElements_example : SameElements 5 (poll_order random_bits 5 (λ k. 0)) (λ k. k)
poll_order-SameElements_example =
    poll_order-SameElements random_bits 5 (λ k. 0) (λ k. omega arith) (omega arith)

-- The first two of three indices have the same waitable.
abbrev doubled : ℕ → ℕ
doubled k = if k == 2 then 90 else 80

select_unlock-reverse_example :
    let locked = waitable_select_lock doubled (λ k. k) 3 in
    ((i : ℕ) → i < 3 → IsIn (doubled i) locked)
    × ((x : ℕ) → IsIn x locked → (i : ℕ) × ((i < 3) × (doubled i ≡ x)))
    × Distinct locked
    × (waitable_select_unlock doubled (λ k. k) 3 ≡ reverse locked)
    × (select_park (listed doubled 0 3) none ≡ locked)
select_unlock-reverse_example =
    select_unlock-reverse doubled (λ k. k) 3 (λ i lt. ground (arith, lt))

-- The sender 2 gives its token; the entry 1 of a select that is done is dropped.
select_polls_example :
    let r = waitable_wait 4 full_waitable 59 9 false in
    let p = waitable_send 4 full_waitable 59 9 false in
    (select_receive 4 full_waitable ≡ (as_selected r.0, r.1))
    × (select_send 4 full_waitable ≡ (as_offered false p.0, p.1))
select_polls_example =
    select_polls 4 full_waitable [] (1 ∷ 2 ∷ 3 ∷ []) 59 9 full_waitable-IsValid (omega arith)
