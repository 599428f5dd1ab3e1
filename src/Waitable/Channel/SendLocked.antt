-- ===== src/Waitable/Channel/SendLocked.antt =====
-- `waitable_send` behind its first tests, against the lists of the waiting and sending threads.
use pentagon.Prelude.{
  ℕ, ◌+◌, ◌≡◌, inl, inr, refl, sym, ap, subst, arith, Bool, true, false, Bool-cases, Option, none,
  some, List, [], ◌∷◌, ◌++◌, ltb, if◌then◌else◌, update_self, NotIn, Apart-symm, append-nil,
}
use pentagon.Waitable.WaitQueue.{WaitingRef, ThreadRef, Store, WaitQueue, wait_queue_enqueue}
use pentagon.Waitable.WaitQueue.Dequeue.{winner, Dequeued}
use pentagon.Waitable.Channel.{
  Waitable, SendResult, sent, send_parks, wake, with_thread, send_or_park, send_to,
}
use pentagon.Waitable.Channel.Valid.{
  IsValid, park-IsQueue, IsQueue-other, IsQueue-same, Apart-winner, winner-none, winner-nil,
}

-- The answer: closed, a receiver, room, and whether to block decide.
unfoldable pub send_answer : Bool → Option WaitingRef → Bool → Bool → SendResult
send_answer true receiver room block = sent false
send_answer false (some x) room block = sent true
send_answer false none true block = sent true
send_answer false none false block = if block then send_parks else sent false

-- The tokens that the buffer gains, the sender that queues up, the thread that gets ready.
abbrev pub buffered : Option WaitingRef → SendResult → ℕ
buffered none (sent true) = 1
buffered _ _ = 0

abbrev pub queued : SendResult → WaitingRef → List WaitingRef
queued send_parks wt = wt ∷ []
queued (sent b) wt = []

abbrev pub woken : Store → Option WaitingRef → List ThreadRef
woken s none = []
woken s (some x) = s.thread x ∷ []

-- What sending does, with the receiver `o` and those behind it, `rest`.
pub record Sent (w : Waitable) (o : Option WaitingRef) (rest ss : List WaitingRef) (wt : WaitingRef)
    (block : Bool) (r : SendResult × Waitable) : Type 0 where
  pub answer : r.0 ≡ send_answer w.closed o (ltb w.count w.size) block
  pub valid : IsValid r.1 rest (ss ++ queued r.0 wt)
  pub count : r.1.count ≡ w.count + buffered o r.0
  pub ready : r.1.ready ≡ w.ready ++ woken w.store o
  pub told : (x : WaitingRef) → o ≡ some x → r.1.store.success x ≡ true

module _ (w : Waitable) (ss : List WaitingRef) (me : ThreadRef) (wt : WaitingRef)
    (block : Bool) where
  send_or_park-Sent :
      IsValid w [] ss
      → w.closed ≡ false
      → NotIn wt ss
      → Sent w none [] ss wt block (send_or_park w me wt block)
  unfolding send_or_park send_answer
  send_or_park-Sent v opened fresh =
      let (s, q) = wait_queue_enqueue (with_thread w.store wt me) w.send_queue wt in
      let both =
        park-IsQueue w.store w.send_queue w.wait_queue ss [] me wt v.sending v.waiting fresh tt in
      elim (Bool-cases (ltb w.count w.size)) [
        | inl room ↦
            subst (Sent w none [] ss wt block) {x = (sent true, record w { count = w.count + 1 })}
              (sym (rw room refl))
              (record {
                answer = rw (opened, room) refl;
                valid = rw append-nil (record {
                  waiting = v.waiting;
                  sending = v.sending;
                  apart = tt;
                  bounded = ground arith;
                  no_token = inl refl;
                  no_room = elim v.no_room [ inl e ↦ inl e | inr e ↦ absurd (ground arith) ];
                  after_close = v.after_close;
                });
                count = refl;
                ready = sym (append-nil w.ready);
                told = λ x e. cc;
              })
        | inr full ↦ elim (Bool-cases block) [
          | inl blocks ↦
              subst (Sent w none [] ss wt block)
                {x = (send_parks, record w { store = s; send_queue = q })}
                (sym (rw (full, blocks) refl))
                (record {
                  answer = rw (opened, full, blocks) refl;
                  valid = record {
                    waiting = both.1;
                    sending = both.0;
                    apart = tt;
                    bounded = v.bounded;
                    no_token = inl refl;
                    no_room = inr (ground (arith, v.bounded));
                    after_close = λ e. cc;
                  };
                  count = ground arith;
                  ready = sym (append-nil w.ready);
                  told = λ x e. cc;
                })
          | inr goes ↦
              subst (Sent w none [] ss wt block) {x = (sent false, w)} (sym (rw (full, goes) refl))
                (record {
                  answer = rw (opened, full, goes) refl;
                  valid = rw append-nil v;
                  count = ground arith;
                  ready = sym (append-nil w.ready);
                  told = λ x e. cc;
                })
        ]
      ]

module _ (w : Waitable) (ss : List WaitingRef) (me : ThreadRef) (wt : WaitingRef)
    (block : Bool) where
  pub send_to-Sent :
      (ws : List WaitingRef) (r : Option WaitingRef × Store × WaitQueue)
      → IsValid w ws ss
      → w.closed ≡ false
      → NotIn wt ss
      → Dequeued w.store ws r
      → Sent w r.0 (winner w.store ws).1 ss wt block (send_to w me wt block r)
  unfolding send_to send_answer
  send_to-Sent ws (none, s, q) v opened fresh d =
      let gone : (winner w.store ws).1 ≡ [] = winner-none w.store ws (sym d.answer) in
      let flipped = Apart-symm ws ss v.apart in
      let w' = record w { store = s; wait_queue = q } in
      let v' : IsValid w' [] ss = record {
        waiting = rw gone at d.rest;
        sending = IsQueue-other w.store ws ss (none, s, q) w.send_queue d flipped v.sending;
        apart = tt;
        bounded = v.bounded;
        no_token = inl refl;
        no_room = v.no_room;
        after_close = λ e. cc;
      } in
      let x = send_or_park-Sent w' ss me wt block v' opened fresh in
      rw gone (record {
        answer = x.answer;
        valid = x.valid;
        count = x.count;
        ready = x.ready;
        told = λ x e. cc;
      })
  send_to-Sent ws (some x, s, q) v opened fresh d =
      let flipped = Apart-symm ws ss v.apart in
      let other = IsQueue-other w.store ws ss (some x, s, q) w.send_queue d flipped v.sending in
      let w' = wake (record w { store = s; wait_queue = q }) x in
      record {
        answer = rw opened refl;
        valid = rw append-nil (record {
          waiting = IsQueue-same s w'.store q (winner w.store ws).1 refl refl d.rest;
          sending = IsQueue-same s w'.store w.send_queue ss refl refl other;
          apart = Apart-symm ss (winner w.store ws).1 (Apart-winner w.store ss ws flipped);
          bounded = v.bounded;
          no_token = winner-nil w.store ws v.no_token;
          no_room = v.no_room;
          after_close = λ e. cc;
        });
        count = omega arith;
        ready = ap (λ g. w.ready ++ (g x ∷ [])) d.thread;
        told = λ y e. let here : x ≡ y = cc in rw⁻¹ here (update_self s.success x true);
      }
