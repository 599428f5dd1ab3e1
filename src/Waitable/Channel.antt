-- ===== src/Waitable/Channel.antt =====
-- kernel/thread/waitable.c, `waitable_send` and `waitable_wait`, each run to its end or to where it
-- parks. Nobody else runs between the first test, which the code makes without the lock, and the end.
pub mod Valid
pub mod SendLocked
pub mod Send
pub mod WaitLocked
pub mod Wait
use pentagon.Prelude.{
  ℕ, zero, suc, ◌+◌, ◌-◌, Bool, true, false, ◌&&◌, not, Option, none, some, List, [], ◌∷◌, ◌++◌,
  ltb, ◌==◌, if◌then◌else◌, is_some, update,
}
use pentagon.Waitable.WaitQueue.{
  WaitingRef, ThreadRef, Store, WaitQueue, wait_queue_enqueue, wait_queue_dequeue,
}

-- `waitable_t` without its lock and its reference count, with the store and the threads given to
-- `scheduler_ready_thread`, the first one in front. `closed` is only tested for 0.
pub record Waitable : Type 0 where
  pub store : Store
  pub count : ℕ
  pub size : ℕ
  pub closed : Bool
  pub wait_queue : WaitQueue
  pub send_queue : WaitQueue
  pub ready : List ThreadRef

unfoldable pub waitable_full : Waitable → Bool
waitable_full w = if w.size == 0 then not (is_some w.wait_queue.first) else w.count == w.size

unfoldable pub waitable_empty : Waitable → Bool
waitable_empty w = if w.size == 0 then not (is_some w.send_queue.first) else w.count == 0

-- What wakes the thread of an entry: it is the waker, with success, and the thread gets ready.
abbrev pub wake : Waitable → WaitingRef → Waitable
wake w wt =
    let t = w.store.thread wt in
    record w {
      store = record w.store {
        waker = update w.store.waker t (some wt);
        success = update w.store.success wt true;
      };
      ready = w.ready ++ (t ∷ []);
    }

-- A fresh entry for the current thread.
abbrev pub with_thread : Store → WaitingRef → ThreadRef → Store
with_thread s wt me = record s { thread = update s.thread wt me }

pub data SendResult : Type 0 where
  sent : Bool → SendResult
  send_parks : SendResult

-- Behind the receivers, in the order of the code: room in the buffer, no wish to block, parking.
unfoldable pub send_or_park : Waitable → ThreadRef → WaitingRef → Bool → SendResult × Waitable
send_or_park w me wt block =
    let (s, q) = wait_queue_enqueue (with_thread w.store wt me) w.send_queue wt in
    if ltb w.count w.size
    then (sent true, record w { count = w.count + 1 })
    else (if block then (send_parks, record w { store = s; send_queue = q }) else (sent false, w))

unfoldable pub send_to :
    Waitable
    → ThreadRef
    → WaitingRef
    → Bool
    → Option WaitingRef × Store × WaitQueue
    → SendResult × Waitable
send_to w me wt block (some x, s, q) = (sent true, wake (record w { store = s; wait_queue = q }) x)
send_to w me wt block (none, s, q) =
    send_or_park (record w { store = s; wait_queue = q }) me wt block

-- `f` is fuel for the dequeue, `me` the current thread, `wt` the entry it acquires if it parks.
unfoldable pub waitable_send : ℕ → Waitable → ThreadRef → WaitingRef → Bool → SendResult × Waitable
waitable_send f w me wt block =
    if not block && (not w.closed && waitable_full w)
    then (sent false, w)
    else (if w.closed
        then (sent false, w)
        else send_to w me wt block (wait_queue_dequeue f w.store w.wait_queue))

pub data WaitResult : Type 0 where
  waitable_empty_result waitable_closed waitable_success wait_parks : WaitResult

unfoldable pub wait_or_park : Waitable → ThreadRef → WaitingRef → Bool → WaitResult × Waitable
wait_or_park w me wt block =
    let (s, q) = wait_queue_enqueue (with_thread w.store wt me) w.wait_queue wt in
    if ltb 0 w.count
    then (waitable_success, record w { count = w.count - 1 })
    else (if block
        then (wait_parks, record w { store = s; wait_queue = q })
        else (waitable_empty_result, w))

unfoldable pub wait_from :
    Waitable
    → ThreadRef
    → WaitingRef
    → Bool
    → Option WaitingRef × Store × WaitQueue
    → WaitResult × Waitable
wait_from w me wt block (some x, s, q) =
    (waitable_success, wake (record w { store = s; send_queue = q }) x)
wait_from w me wt block (none, s, q) =
    wait_or_park (record w { store = s; send_queue = q }) me wt block

unfoldable pub waitable_wait : ℕ → Waitable → ThreadRef → WaitingRef → Bool → WaitResult × Waitable
waitable_wait f w me wt block =
    let locked =
      if w.closed
      then (if w.count == 0 then (waitable_closed, w) else wait_or_park w me wt block)
      else wait_from w me wt block (wait_queue_dequeue f w.store w.send_queue) in
    if not block && waitable_empty w
    then (if w.closed then (waitable_closed, w) else (waitable_empty_result, w))
    else locked
