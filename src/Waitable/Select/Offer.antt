-- ===== src/Waitable/Select/Offer.antt =====
-- kernel/thread/waitable.c, the first pass of `waitable_select` at one waitable, to send to it, against
-- `waitable_send` that does not block. The unlocking is the one of Locks.
use pentagon.Prelude.{
  ℕ, zero, suc, ◌+◌, ◌<◌, ◌≡◌, inl, inr, refl, sym, ap, ap₂, ◌∙◌, arith, Bool, true, false, not,
  ◌&&◌, Bool-cases, Option, none, some, List, ltb, ◌==◌, if◌then◌else◌, is_some,
}
use pentagon.Waitable.WaitQueue.{ThreadRef, WaitingRef, Store, WaitQueue, wait_queue_dequeue}
use pentagon.Waitable.WaitQueue.Dequeue.{wait_queue_dequeue-nil}
use pentagon.Waitable.WaitQueue.Segments.{first_of}
use pentagon.Waitable.Channel.{
  Waitable, SendResult, sent, send_parks, wake, waitable_full, send_or_park, send_to, waitable_send,
  waitable_wait,
}
use pentagon.Waitable.Channel.Valid.{IsValid}
use pentagon.Waitable.Select.Poll.{
  none_there, select_receive, as_selected, select_receive-waitable_wait,
}

unfoldable pub offer_to : Waitable → Option WaitingRef × Store × WaitQueue → Option Bool × Waitable
offer_to w (some x, s, q) = (some true, wake (record w { store = s; wait_queue = q }) x)
offer_to w (none, s, q) =
    let w1 = record w { store = s; wait_queue = q } in
    if ltb w.count w.size then (some true, record w1 { count = w.count + 1 }) else (none, w1)

unfoldable pub select_send : ℕ → Waitable → Option Bool × Waitable
select_send f w =
    let offered = offer_to w (wait_queue_dequeue f w.store w.wait_queue) in
    if w.closed then (some false, w) else offered

-- The answer of `waitable_send` in these terms; without success it tells a closed waitable from a full
-- one by the closed flag.
abbrev pub as_offered : Bool → SendResult → Option Bool
as_offered closed send_parks = none
as_offered closed (sent true) = some true
as_offered true (sent false) = some false
as_offered false (sent false) = none

full-first :
    (w : Waitable) (ws ss : List WaitingRef)
    → IsValid w ws ss
    → waitable_full w ≡ true
    → (w.wait_queue.first ≡ none) × (ltb w.count w.size ≡ false)
unfolding waitable_full
full-first w ws ss v e = elim (Bool-cases (w.size == 0)) [
  | inl nil ↦
      let unbuffered : not (is_some w.wait_queue.first) ≡ true = rw nil at e in
      (none_there w.wait_queue.first unbuffered, ground (arith, nil))
  | inr room ↦
      let full : (w.count == w.size) ≡ true = rw room at e in
      (
        elim v.no_token [
          | inl nobody ↦ v.waiting.first ∙ ap (λ (l : List WaitingRef). first_of l none) nobody
          | inr bare ↦ absurd (ground (arith, bare, room, full))
        ],
        ground (arith, full),
      )
]

offer_to-send_to :
    (w : Waitable) (me : ThreadRef) (wt : WaitingRef) (r : Option WaitingRef × Store × WaitQueue)
    → let p = send_to w me wt false r in offer_to w r ≡ (as_offered false p.0, p.1)
unfolding offer_to send_to send_or_park
offer_to-send_to w me wt (some x, s, q) = refl
offer_to-send_to w me wt (none, s, q) = elim (Bool-cases (ltb w.count w.size)) [
  | inl room ↦ rw room refl
  | inr full ↦ rw full refl
]

abbrev offered : ℕ → Waitable → Bool → Option Bool × Waitable
offered f w closed =
    let rest = offer_to w (wait_queue_dequeue f w.store w.wait_queue) in
    if closed then (some false, w) else rest

abbrev tried : ℕ → Waitable → ThreadRef → WaitingRef → Bool → Bool → SendResult × Waitable
tried f w me wt full closed =
    let rest = send_to w me wt false (wait_queue_dequeue f w.store w.wait_queue) in
    if not closed && full then (sent false, w) else (if closed then (sent false, w) else rest)

abbrev as_poll : Bool → SendResult × Waitable → Option Bool × Waitable
as_poll closed r = (as_offered closed r.0, r.1)

full-offered :
    (f : ℕ) (w : Waitable)
    → w.wait_queue.first ≡ none
    → ltb w.count w.size ≡ false
    → offered (suc f) w false ≡ (none, w)
unfolding offer_to
full-offered f w first full =
    ap (offer_to w) (wait_queue_dequeue-nil f w.store w.wait_queue first)
    ∙ ap (λ (b : Bool). if b then (some true, record w { count = w.count + 1 }) else (none, w)) full

-- To poll a valid waitable for room, with fuel, is to send to it without blocking: the answers agree,
-- with a closed waitable told from a full one, and so does everything that is left.
pub select_send-waitable_send :
    (f : ℕ) (w : Waitable) (ws ss : List WaitingRef) (me : ThreadRef) (wt : WaitingRef)
    → IsValid w ws ss
    → 0 < f
    → let r = waitable_send f w me wt false in select_send f w ≡ (as_offered w.closed r.0, r.1)
unfolding select_send waitable_send
select_send-waitable_send zero w ws ss me wt v lt = absurd (omega (arith, lt))
select_send-waitable_send (suc f) w ws ss me wt v lt =
    let g = suc f in
    let sends = λ (full closed : Bool) (e : waitable_full w ≡ full) (c : w.closed ≡ closed).
      ap₂ as_poll c (ap₂ (tried g w me wt) e c) in
    elim (Bool-cases (waitable_full w)) [
      | inl full ↦
          let e = full-first w ws ss v full in
          elim (Bool-cases w.closed) [
            | inl closed ↦ ap (offered g w) closed ∙ sym (sends true true full closed)
            | inr o ↦ ap (offered g w) o ∙ full-offered f w e.0 e.1 ∙ sym (sends true false full o)
          ]
      | inr room ↦ elim (Bool-cases w.closed) [
        | inl closed ↦ ap (offered g w) closed ∙ sym (sends false true room closed)
        | inr o ↦
            ap (offered g w) o
            ∙ offer_to-send_to w me wt (wait_queue_dequeue g w.store w.wait_queue)
            ∙ sym (sends false false room o)
      ]
    ]

-- The first pass of `waitable_select`, with fuel, treats a valid waitable as `waitable_wait` and
-- `waitable_send` do that do not block: the answers agree, with a closed waitable told from a full one,
-- and so does everything that is left.
pub select_polls :
    (f : ℕ) (w : Waitable) (ws ss : List WaitingRef) (me : ThreadRef) (wt : WaitingRef)
    → IsValid w ws ss
    → 0 < f
    → let r = waitable_wait f w me wt false in
      let p = waitable_send f w me wt false in
      (select_receive f w ≡ (as_selected r.0, r.1))
      × (select_send f w ≡ (as_offered w.closed p.0, p.1))
select_polls f w ws ss me wt v lt = (
  select_receive-waitable_wait f w ws ss me wt v lt,
  select_send-waitable_send f w ws ss me wt v lt,
)
