-- ===== src/Waitable/Channel/Send.antt =====
-- `waitable_send` against the lists of the waiting and sending threads.
use pentagon.Prelude.{
  ℕ, ◌<◌, ◌≡◌, inl, inr, refl, sym, ap, subst, ◌∙◌, arith, Bool, true, false, Bool-cases, both_true,
  ◌&&◌, not, none, List, [], ◌∷◌, ltb, if◌then◌else◌, length, NotIn, append-nil,
}
use pentagon.Waitable.WaitQueue.{WaitingRef, ThreadRef, wait_queue_dequeue}
use pentagon.Waitable.WaitQueue.Dequeue.{winner, wait_queue_dequeue-Dequeued}
use pentagon.Waitable.Channel.{Waitable, sent, waitable_full, send_to, waitable_send}
use pentagon.Waitable.Channel.Valid.{IsValid}
use pentagon.Waitable.Channel.SendLocked.{send_answer, Sent, send_to-Sent}

either_way : (b : Bool) {A : Type 0} {x : A} → (if not b && false then x else x) ≡ x
either_way false = refl
either_way true = refl

-- A full waitable has nobody waiting and no room.
full-nobody :
    (w : Waitable) (ws ss : List WaitingRef)
    → IsValid w ws ss
    → waitable_full w ≡ true
    → (ws ≡ []) × (ltb w.count w.size ≡ false)
unfolding waitable_full
full-nobody w [] ss v full = (refl, ground (arith, v.bounded))
full-nobody w (x ∷ xs) ss v full = elim v.no_token [
  | inl e ↦ cc
  | inr e ↦ ground (arith, full, v.waiting.first, e)
]

refused-Sent :
    (w : Waitable) (ws ss : List WaitingRef) (wt : WaitingRef) (block : Bool)
    → IsValid w ws ss
    → ws ≡ []
    → send_answer w.closed none (ltb w.count w.size) block ≡ sent false
    → Sent w (winner w.store ws).0 (winner w.store ws).1 ss wt block (sent false, w)
unfolding winner
refused-Sent w ws ss wt block v e a = rw e (record {
  answer = sym a;
  valid = rw append-nil (rw e at v);
  count = omega arith;
  ready = sym (append-nil w.ready);
  told = λ x f. cc;
})

waitable_send-tests :
    (f : ℕ) (w : Waitable) (me : ThreadRef) (wt : WaitingRef) (block closed full : Bool)
    → w.closed ≡ closed
    → waitable_full w ≡ full
    → waitable_send f w me wt block ≡ (
        if not block && (not closed && full)
        then (sent false, w)
        else (if closed
            then (sent false, w)
            else send_to w me wt block (wait_queue_dequeue f w.store w.wait_queue)))
unfolding waitable_send
waitable_send-tests f w me wt block closed full e g =
    let slow = send_to w me wt block (wait_queue_dequeue f w.store w.wait_queue) in
    ap
      (λ c.
        if not block && (not c && waitable_full w)
        then (sent false, w)
        else (if c then (sent false, w) else slow))
      e
    ∙ ap
        (λ b.
          if not block && (not closed && b)
          then (sent false, w)
          else (if closed then (sent false, w) else slow))
        g

-- With fuel above the number of waiting threads, `waitable_send` on a valid waitable answers as the
-- closed flag, a waiting receiver, the room in the buffer and `block` say, and leaves it valid: a
-- receiver that is woken leaves its queue, is told of the success and gets ready; else a token is
-- buffered if there is room; else the sender parks behind the other senders if it may block.
pub waitable_send-Sent :
    (f : ℕ) (w : Waitable) (ws ss : List WaitingRef) (me : ThreadRef) (wt : WaitingRef)
    (block : Bool)
    → IsValid w ws ss
    → NotIn wt ss
    → length ws < f
    → Sent w (winner w.store ws).0 (winner w.store ws).1 ss wt block (waitable_send f w me wt block)
unfolding send_answer
waitable_send-Sent f w ws ss me wt block v fresh fuel =
    let o = (winner w.store ws).0 in
    let rest = (winner w.store ws).1 in
    let d = wait_queue_dequeue-Dequeued f w.store w.wait_queue ws v.waiting fuel in
    let r = wait_queue_dequeue f w.store w.wait_queue in
    let tests = waitable_send-tests f w me wt block in
    elim (Bool-cases w.closed) [
      | inl shut ↦
          subst (Sent w o rest ss wt block)
            (sym (tests true (waitable_full w) shut refl ∙ either_way block))
            (refused-Sent w ws ss wt block v (v.after_close shut).0 (rw shut refl))
      | inr opened ↦
          let slow =
            subst (λ p. Sent w p rest ss wt block (send_to w me wt block r)) d.answer
              (send_to-Sent w ss me wt block ws r v opened fresh d) in
          elim (Bool-cases (not block && waitable_full w)) [
            | inl fast ↦
                let (blocks, full) = both_true block (waitable_full w) fast in
                let (nobody, no_room) = full-nobody w ws ss v full in
                subst (Sent w o rest ss wt block)
                  (sym (tests false (waitable_full w) opened refl ∙ rw fast refl))
                  (refused-Sent w ws ss wt block v nobody (rw (opened, no_room, blocks) refl))
            | inr lock ↦
                subst (Sent w o rest ss wt block)
                  (sym (tests false (waitable_full w) opened refl ∙ rw lock refl)) slow
          ]
    ]
