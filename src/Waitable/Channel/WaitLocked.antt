-- ===== src/Waitable/Channel/WaitLocked.antt =====
-- `waitable_wait` behind its first test, against the lists of the waiting and sending threads.
use pentagon.Prelude.{
  ℕ, ◌+◌, ◌-◌, ◌≡◌, inl, inr, refl, sym, ap, subst, arith, Bool, true, false, Bool-cases, Option,
  none, some, List, [], ◌∷◌, ◌++◌, ltb, if◌then◌else◌, update_self, NotIn, Apart-nil, append-nil,
}
use pentagon.Waitable.WaitQueue.{WaitingRef, ThreadRef, Store, WaitQueue, wait_queue_enqueue}
use pentagon.Waitable.WaitQueue.Dequeue.{winner, Dequeued}
use pentagon.Waitable.Channel.{
  Waitable, WaitResult, waitable_empty_result, waitable_closed, waitable_success, wait_parks, wake,
  with_thread, wait_or_park, wait_from,
}
use pentagon.Waitable.Channel.Valid.{
  IsValid, park-IsQueue, IsQueue-other, IsQueue-same, Apart-winner, winner-none, winner-nil,
}

-- The answer: closed, a sender, a token in the buffer, and whether to block decide.
unfoldable pub wait_answer : Bool → Option WaitingRef → Bool → Bool → WaitResult
wait_answer true sender true block = waitable_success
wait_answer true sender false block = waitable_closed
wait_answer false (some x) token block = waitable_success
wait_answer false none true block = waitable_success
wait_answer false none false block = if block then wait_parks else waitable_empty_result

-- The tokens that the buffer loses, the receiver that queues up, the thread that gets ready.
abbrev pub taken : Option WaitingRef → WaitResult → ℕ
taken none waitable_success = 1
taken _ _ = 0

abbrev pub parked : WaitResult → WaitingRef → List WaitingRef
parked wait_parks wt = wt ∷ []
parked _ wt = []

abbrev pub released : Store → Option WaitingRef → List ThreadRef
released s none = []
released s (some x) = s.thread x ∷ []

-- What waiting does, with the sender `o` and those behind it, `rest`.
pub record Waited (w : Waitable) (o : Option WaitingRef) (ws rest : List WaitingRef)
    (wt : WaitingRef) (block : Bool) (r : WaitResult × Waitable) : Type 0 where
  pub answer : r.0 ≡ wait_answer w.closed o (ltb 0 w.count) block
  pub valid : IsValid r.1 (ws ++ parked r.0 wt) rest
  pub count : r.1.count + taken o r.0 ≡ w.count
  pub ready : r.1.ready ≡ w.ready ++ released w.store o
  pub told : (x : WaitingRef) → o ≡ some x → r.1.store.success x ≡ true

module _ (w : Waitable) (ws : List WaitingRef) (me : ThreadRef) (wt : WaitingRef)
    (block : Bool) where
  pub take_token-Waited :
      IsValid w ws []
      → ltb 0 w.count ≡ true
      → Waited w none ws [] wt block (wait_or_park w me wt block)
  unfolding wait_or_park wait_answer
  take_token-Waited v token =
      subst (Waited w none ws [] wt block)
        {x = (waitable_success, record w { count = w.count - 1 })} (sym (rw token refl))
        (record {
          answer = elim (Bool-cases w.closed) [
            | inl e ↦ rw (e, token) refl
            | inr e ↦ rw (e, token) refl
          ];
          valid = rw append-nil (record {
            waiting = v.waiting;
            sending = v.sending;
            apart = v.apart;
            bounded = omega (arith, v.bounded);
            no_token = elim v.no_token [ inl e ↦ inl e | inr e ↦ inr (omega arith) ];
            no_room = inl refl;
            after_close = v.after_close;
          });
          count = ground arith;
          ready = sym (append-nil w.ready);
          told = λ x e. cc;
        })

  pub wait_or_park-Waited :
      IsValid w ws []
      → w.closed ≡ false
      → NotIn wt ws
      → Waited w none ws [] wt block (wait_or_park w me wt block)
  unfolding wait_or_park wait_answer
  wait_or_park-Waited v opened fresh =
      let (s, q) = wait_queue_enqueue (with_thread w.store wt me) w.wait_queue wt in
      let both =
        park-IsQueue w.store w.wait_queue w.send_queue ws [] me wt v.waiting v.sending fresh tt in
      elim (Bool-cases (ltb 0 w.count)) [
        | inl token ↦ take_token-Waited v token
        | inr empty ↦ elim (Bool-cases block) [
          | inl blocks ↦
              subst (Waited w none ws [] wt block)
                {x = (wait_parks, record w { store = s; wait_queue = q })}
                (sym (rw (empty, blocks) refl))
                (record {
                  answer = rw (opened, empty, blocks) refl;
                  valid = record {
                    waiting = both.0;
                    sending = both.1;
                    apart = Apart-nil (ws ++ (wt ∷ []));
                    bounded = v.bounded;
                    no_token = inr (ground arith);
                    no_room = inl refl;
                    after_close = λ e. cc;
                  };
                  count = omega arith;
                  ready = sym (append-nil w.ready);
                  told = λ x e. cc;
                })
          | inr goes ↦
              subst (Waited w none ws [] wt block) {x = (waitable_empty_result, w)}
                (sym (rw (empty, goes) refl))
                (record {
                  answer = rw (opened, empty, goes) refl;
                  valid = rw append-nil v;
                  count = omega arith;
                  ready = sym (append-nil w.ready);
                  told = λ x e. cc;
                })
        ]
      ]

module _ (w : Waitable) (ws : List WaitingRef) (me : ThreadRef) (wt : WaitingRef)
    (block : Bool) where
  pub wait_from-Waited :
      (ss : List WaitingRef) (r : Option WaitingRef × Store × WaitQueue)
      → IsValid w ws ss
      → w.closed ≡ false
      → NotIn wt ws
      → Dequeued w.store ss r
      → Waited w r.0 ws (winner w.store ss).1 wt block (wait_from w me wt block r)
  unfolding wait_from wait_answer
  wait_from-Waited ss (none, s, q) v opened fresh d =
      let gone : (winner w.store ss).1 ≡ [] = winner-none w.store ss (sym d.answer) in
      let w' = record w { store = s; send_queue = q } in
      let v' : IsValid w' ws [] = record {
        waiting = IsQueue-other w.store ss ws (none, s, q) w.wait_queue d v.apart v.waiting;
        sending = rw gone at d.rest;
        apart = Apart-nil ws;
        bounded = v.bounded;
        no_token = v.no_token;
        no_room = inl refl;
        after_close = λ e. cc;
      } in
      let x = wait_or_park-Waited w' ws me wt block v' opened fresh in
      rw gone (record {
        answer = x.answer;
        valid = x.valid;
        count = x.count;
        ready = x.ready;
        told = λ x e. cc;
      })
  wait_from-Waited ss (some x, s, q) v opened fresh d =
      let other = IsQueue-other w.store ss ws (some x, s, q) w.wait_queue d v.apart v.waiting in
      let w' = wake (record w { store = s; send_queue = q }) x in
      record {
        answer = rw opened refl;
        valid = rw append-nil (record {
          waiting = IsQueue-same s w'.store w.wait_queue ws refl refl other;
          sending = IsQueue-same s w'.store q (winner w.store ss).1 refl refl d.rest;
          apart = Apart-winner w.store ws ss v.apart;
          bounded = v.bounded;
          no_token = v.no_token;
          no_room = winner-nil w.store ss v.no_room;
          after_close = λ e. cc;
        });
        count = omega arith;
        ready = ap (λ g. w.ready ++ (g x ∷ [])) d.thread;
        told = λ y e. let here : x ≡ y = cc in rw⁻¹ here (update_self s.success x true);
      }
