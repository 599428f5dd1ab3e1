-- ===== src/Waitable/Channel/Wait.antt =====
-- `waitable_wait` against the lists of the waiting and sending threads.
use pentagon.Prelude.{
  ℕ, ◌<◌, ◌≡◌, inl, inr, refl, sym, ap, subst, ◌∙◌, arith, Bool, true, false, Bool-cases, both_true,
  ◌&&◌, not, none, List, [], ◌∷◌, ltb, ◌==◌, if◌then◌else◌, length, NotIn, append-nil,
}
use pentagon.Waitable.WaitQueue.{WaitingRef, ThreadRef, wait_queue_dequeue}
use pentagon.Waitable.WaitQueue.Dequeue.{winner, wait_queue_dequeue-Dequeued}
use pentagon.Waitable.Channel.{
  Waitable, WaitResult, waitable_empty_result, waitable_closed, waitable_empty, wait_or_park,
  wait_from, waitable_wait,
}
use pentagon.Waitable.Channel.Valid.{IsValid}
use pentagon.Waitable.Channel.WaitLocked.{
  wait_answer, taken, parked, Waited, take_token-Waited, wait_from-Waited,
}

-- An empty waitable has nobody sending and no token.
empty-nobody :
    (w : Waitable) (ws ss : List WaitingRef)
    → IsValid w ws ss
    → waitable_empty w ≡ true
    → (ss ≡ []) × (ltb 0 w.count ≡ false)
unfolding waitable_empty
empty-nobody w ws [] v empty = (refl, ground (arith, v.bounded))
empty-nobody w ws (x ∷ xs) v empty = elim v.no_room [
  | inl e ↦ cc
  | inr e ↦ ground (arith, empty, v.sending.first, e)
]

refused-Waited :
    (w : Waitable) (ws ss : List WaitingRef) (wt : WaitingRef) (block : Bool) (a : WaitResult)
    → IsValid w ws ss
    → ss ≡ []
    → wait_answer w.closed none (ltb 0 w.count) block ≡ a
    → parked a wt ≡ []
    → taken none a ≡ 0
    → Waited w (winner w.store ss).0 ws (winner w.store ss).1 wt block (a, w)
unfolding winner
refused-Waited w ws ss wt block a v e answer stays keeps = rw e (record {
  answer = sym answer;
  valid = rw (stays, append-nil) (rw e at v);
  count = omega (arith, keeps);
  ready = sym (append-nil w.ready);
  told = λ x f. cc;
})

locked_if : ℕ → Waitable → ThreadRef → WaitingRef → Bool → Bool → Bool → WaitResult × Waitable
locked_if f w me wt block closed none_left =
    if closed
    then (if none_left then (waitable_closed, w) else wait_or_park w me wt block)
    else wait_from w me wt block (wait_queue_dequeue f w.store w.send_queue)

waitable_wait-tests :
    (f : ℕ) (w : Waitable) (me : ThreadRef) (wt : WaitingRef) (block closed none_left : Bool)
    → w.closed ≡ closed
    → (w.count == 0) ≡ none_left
    → waitable_wait f w me wt block ≡ (
        if not block && waitable_empty w
        then (if closed then (waitable_closed, w) else (waitable_empty_result, w))
        else locked_if f w me wt block closed none_left)
unfolding waitable_wait locked_if
waitable_wait-tests f w me wt block closed none_left e g =
    let fast = not block && waitable_empty w in
    ap
      (λ c.
        if fast
        then (if c then (waitable_closed, w) else (waitable_empty_result, w))
        else locked_if f w me wt block c (w.count == 0))
      e
    ∙ ap
        (λ b.
          if fast
          then (if closed then (waitable_closed, w) else (waitable_empty_result, w))
          else locked_if f w me wt block closed b)
        g

-- With fuel above the number of sending threads, `waitable_wait` on a valid waitable answers as the
-- closed flag, a waiting sender, the tokens in the buffer and `block` say, and leaves it valid: a
-- sender that is woken leaves its queue, is told of the success and gets ready; else a token is
-- taken if there is one; else, before the close, the receiver parks behind the others if it may
-- block.
pub waitable_wait-Waited :
    (f : ℕ) (w : Waitable) (ws ss : List WaitingRef) (me : ThreadRef) (wt : WaitingRef)
    (block : Bool)
    → IsValid w ws ss
    → NotIn wt ws
    → length ss < f
    → Waited w
        (winner w.store ss).0
        ws
        (winner w.store ss).1
        wt
        block
        (waitable_wait f w me wt block)
unfolding wait_answer locked_if winner
waitable_wait-Waited f w ws ss me wt block v fresh fuel =
    let o = (winner w.store ss).0 in
    let rest = (winner w.store ss).1 in
    let d = wait_queue_dequeue-Dequeued f w.store w.send_queue ss v.sending fuel in
    let r = wait_queue_dequeue f w.store w.send_queue in
    let tests = waitable_wait-tests f w me wt block in
    let by =
      λ (x : WaitResult × Waitable) (e : waitable_wait f w me wt block ≡ x)
          (g : Waited w o ws rest wt block x).
        subst (Waited w o ws rest wt block) (sym e) g in
    elim (Bool-cases (not block && waitable_empty w)) [
      | inl fast ↦
          let (blocks, empty) = both_true block (waitable_empty w) fast in
          let (nobody, no_token) = empty-nobody w ws ss v empty in
          elim (Bool-cases w.closed) [
            | inl shut ↦
                by (waitable_closed, w) (tests true (w.count == 0) shut refl ∙ rw fast refl)
                  (refused-Waited w ws ss wt block waitable_closed v nobody
                    (rw (shut, no_token) refl) refl refl)
            | inr opened ↦
                by (waitable_empty_result, w)
                  (tests false (w.count == 0) opened refl ∙ rw fast refl)
                  (refused-Waited w ws ss wt block waitable_empty_result v nobody
                    (rw (opened, no_token, blocks) refl) refl refl)
          ]
      | inr lock ↦ elim (Bool-cases w.closed) [
        | inl shut ↦
            let nobody = (v.after_close shut).1 in
            elim (Bool-cases (w.count == 0)) [
              | inl zero_left ↦
                  let no_token : ltb 0 w.count ≡ false = ground arith in
                  by (waitable_closed, w) (tests true true shut zero_left ∙ rw lock refl)
                    (refused-Waited w ws ss wt block waitable_closed v nobody
                      (rw (shut, no_token) refl) refl refl)
              | inr some_left ↦
                  by (wait_or_park w me wt block) (tests true false shut some_left ∙ rw lock refl)
                    (rw nobody (take_token-Waited w ws me wt block (rw nobody at v) (ground arith)))
            ]
        | inr opened ↦
            by (wait_from w me wt block r) (tests false (w.count == 0) opened refl ∙ rw lock refl) (
              subst (λ p. Waited w p ws rest wt block (wait_from w me wt block r)) d.answer
                (wait_from-Waited w ws me wt block ss r v opened fresh d))
      ]
    ]
