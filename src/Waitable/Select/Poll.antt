-- ===== src/Waitable/Select/Poll.antt =====
-- kernel/thread/waitable.c, the first pass of `waitable_select` at one waitable, to receive from it,
-- against `waitable_wait` that does not block. The unlocking is the one of Locks.
use pentagon.Prelude.{
  ℕ, zero, suc, ◌-◌, ◌<◌, ◌≡◌, inl, inr, refl, sym, ap, ap₂, ◌∙◌, arith, Bool, true, false, not,
  Bool-cases, Option, none, some, List, ltb, ◌==◌, if◌then◌else◌, is_some,
}
use pentagon.Waitable.WaitQueue.{ThreadRef, WaitingRef, Store, WaitQueue, wait_queue_dequeue}
use pentagon.Waitable.WaitQueue.Dequeue.{wait_queue_dequeue-nil}
use pentagon.Waitable.WaitQueue.Segments.{first_of}
use pentagon.Waitable.Channel.{
  Waitable, WaitResult, waitable_empty_result, waitable_closed, waitable_success, wait_parks, wake,
  waitable_empty, wait_or_park, wait_from, waitable_wait,
}
use pentagon.Waitable.Channel.Valid.{IsValid}

-- The waitable is selected, with success or without, or the pass goes on.
unfoldable pub receive_from :
    Waitable → Option WaitingRef × Store × WaitQueue → Option Bool × Waitable
receive_from w (some x, s, q) = (some true, wake (record w { store = s; send_queue = q }) x)
receive_from w (none, s, q) =
    let w1 = record w { store = s; send_queue = q } in
    if ltb 0 w.count
    then (some true, record w1 { count = w.count - 1 })
    else (if w.closed then (some false, w1) else (none, w1))

unfoldable pub select_receive : ℕ → Waitable → Option Bool × Waitable
select_receive f w = receive_from w (wait_queue_dequeue f w.store w.send_queue)

-- The answer of `waitable_wait` in these terms.
abbrev pub as_selected : WaitResult → Option Bool
as_selected waitable_empty_result = none
as_selected waitable_closed = some false
as_selected waitable_success = some true
as_selected wait_parks = none

abbrev as_poll : WaitResult × Waitable → Option Bool × Waitable
as_poll r = (as_selected r.0, r.1)

pub none_there : (o : Option WaitingRef) → not (is_some o) ≡ true → o ≡ none
none_there none e = refl
none_there (some x) e = cc

-- A closed waitable that is not empty has a token.
closed-token :
    (w : Waitable)
    → w.send_queue.first ≡ none
    → waitable_empty w ≡ false
    → ((w.count == 0) ≡ false) × (ltb 0 w.count ≡ true)
unfolding waitable_empty
closed-token w first e = elim (Bool-cases (w.size == 0)) [
  | inl nil ↦ let never : true ≡ false = rw (nil, first) at e in absurd cc
  | inr room ↦ let more : (w.count == 0) ≡ false = rw room at e in (more, ground (arith, more))
]

empty-first :
    (w : Waitable) (ws ss : List WaitingRef)
    → IsValid w ws ss
    → waitable_empty w ≡ true
    → (w.send_queue.first ≡ none) × (ltb 0 w.count ≡ false)
unfolding waitable_empty
empty-first w ws ss v e = elim (Bool-cases (w.size == 0)) [
  | inl nil ↦
      let unbuffered : not (is_some w.send_queue.first) ≡ true = rw nil at e in
      (none_there w.send_queue.first unbuffered, ground (arith, nil, v.bounded))
  | inr room ↦
      let bare : (w.count == 0) ≡ true = rw room at e in
      (
        elim v.no_room [
          | inl nobody ↦ v.sending.first ∙ ap (λ (l : List WaitingRef). first_of l none) nobody
          | inr full ↦ absurd (ground (arith, bare, room, full))
        ],
        ground (arith, bare),
      )
]

receive_from-open :
    (w : Waitable) (me : ThreadRef) (wt : WaitingRef) (r : Option WaitingRef × Store × WaitQueue)
    → w.closed ≡ false
    → receive_from w r ≡ as_poll (wait_from w me wt false r)
unfolding receive_from wait_from wait_or_park
receive_from-open w me wt (some x, s, q) o = refl
receive_from-open w me wt (none, s, q) o = elim (Bool-cases (ltb 0 w.count)) [
  | inl token ↦ rw token refl
  | inr bare ↦ rw (bare, o) refl
]

-- Both functions by the tests that they make.
abbrev polled : Waitable → Bool → Bool → Option Bool × Waitable
polled w token closed =
    if token
    then (some true, record w { count = w.count - 1 })
    else (if closed then (some false, w) else (none, w))

receive_from-polled :
    (w : Waitable) (token closed : Bool)
    → ltb 0 w.count ≡ token
    → w.closed ≡ closed
    → receive_from w (none, w.store, w.send_queue) ≡ polled w token closed
unfolding receive_from
receive_from-polled w token closed t c = ap₂ (polled w) t c

abbrev waited : ℕ → Waitable → ThreadRef → WaitingRef → Bool → Bool → WaitResult × Waitable
waited f w me wt empty closed =
    let locked =
      if closed
      then (if w.count == 0 then (waitable_closed, w) else wait_or_park w me wt false)
      else wait_from w me wt false (wait_queue_dequeue f w.store w.send_queue) in
    if empty then (if closed then (waitable_closed, w) else (waitable_empty_result, w)) else locked

waitable_wait-waited :
    (f : ℕ) (w : Waitable) (me : ThreadRef) (wt : WaitingRef) (empty closed : Bool)
    → waitable_empty w ≡ empty
    → w.closed ≡ closed
    → waitable_wait f w me wt false ≡ waited f w me wt empty closed
unfolding waitable_wait
waitable_wait-waited f w me wt empty closed e c = ap₂ (waited f w me wt) e c

-- A token of a closed waitable.
take-token :
    (w : Waitable) (me : ThreadRef) (wt : WaitingRef)
    → ltb 0 w.count ≡ true
    → wait_or_park w me wt false ≡ (waitable_success, record w { count = w.count - 1 })
unfolding wait_or_park
take-token w me wt t = rw t refl

waited-token :
    (f : ℕ) (w : Waitable) (me : ThreadRef) (wt : WaitingRef)
    → (w.count == 0) ≡ false
    → ltb 0 w.count ≡ true
    → waited f w me wt false true ≡ (waitable_success, record w { count = w.count - 1 })
waited-token f w me wt z t =
    ap (λ (b : Bool). if b then (waitable_closed, w) else wait_or_park w me wt false) z
    ∙ take-token w me wt t

-- To poll a valid waitable for a token, with fuel, is to wait for one without blocking: the answers
-- agree, and so does everything that is left.
pub select_receive-waitable_wait :
    (f : ℕ) (w : Waitable) (ws ss : List WaitingRef) (me : ThreadRef) (wt : WaitingRef)
    → IsValid w ws ss
    → 0 < f
    → let r = waitable_wait f w me wt false in select_receive f w ≡ (as_selected r.0, r.1)
unfolding select_receive
select_receive-waitable_wait zero w ws ss me wt v lt = absurd (omega (arith, lt))
select_receive-waitable_wait (suc f) w ws ss me wt v lt =
    let nil = λ (first : w.send_queue.first ≡ none).
      ap (receive_from w) (wait_queue_dequeue-nil f w.store w.send_queue first) in
    let waits = waitable_wait-waited (suc f) w me wt in
    elim (Bool-cases (waitable_empty w)) [
      | inl empty ↦
          let e = empty-first w ws ss v empty in
          elim (Bool-cases w.closed) [
            | inl closed ↦
                nil e.0
                ∙ receive_from-polled w false true e.1 closed
                ∙ sym (ap as_poll (waits true true empty closed))
            | inr o ↦
                nil e.0
                ∙ receive_from-polled w false false e.1 o
                ∙ sym (ap as_poll (waits true false empty o))
          ]
      | inr filled ↦ elim (Bool-cases w.closed) [
        | inl closed ↦
            let first : w.send_queue.first ≡ none =
              v.sending.first
              ∙ ap (λ (l : List WaitingRef). first_of l none) (v.after_close closed).1 in
            let token = closed-token w first filled in
            nil first
            ∙ receive_from-polled w true true token.1 closed
            ∙ sym (
                ap as_poll
                  (waits false true filled closed ∙ waited-token (suc f) w me wt token.0 token.1))
        | inr o ↦
            receive_from-open w me wt (wait_queue_dequeue (suc f) w.store w.send_queue) o
            ∙ sym (ap as_poll (waits false false filled o))
      ]
    ]
