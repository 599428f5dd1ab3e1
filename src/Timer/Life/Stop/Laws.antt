-- ===== src/Timer/Life/Stop/Laws.antt =====
-- What `timer_modify` does to a timer of the heap.
use pentagon.Prelude.{
  done, inr, inl, ℕ, ◌≤◌, ◌<◌, ◌≡◌, refl, sym, ap, subst, ◌∙◌, arith, Bool, true, false, ◌&&◌,
  Bool-cases, none, some, ltb, lt→ltb, if◌then◌else◌, update_self, sub32,
}
use pentagon.Timer.Heap.{TimerRef}
use pentagon.Timer.Queue.{
  Status, no_status, waiting, running, deleted, removing, removed, modifying, modified_earlier,
  modified_later, moving, Timers, when_of, set_timer, update_timer_modified_earliest,
}
use pentagon.Timer.Life.{status_of, deleted_less}
use pentagon.Timer.Life.Placed.{IsPlaced, unsettled, deleted_timers-IsPlaced, set_timer-IsPlaced}
use pentagon.Timer.Life.Stop.{
  marked_timer, note_if, Change, Settings, mark_modified, modify_at, timer_modify,
  nobarrier_wake_time,
}

-- The timer is in a heap and still to be run.
abbrev pub is_active : Status → Bool
is_active waiting = true
is_active modified_earlier = true
is_active modified_later = true
is_active _ = false

-- What `timer_modify` makes of a timer in a heap.
pub record Marked (cpu : ℕ) (s : Timers) (t : TimerRef) (v : Settings) (active : Bool) (c : Change)
    : Type 0 where
  pub placed : IsPlaced cpu c.queue
  pub answer : c.answer ≡ active
  pub preempt : c.preempt ≡ 2
  pub is_now : c.queue.timer t ≡ marked_timer (s.timer t) v
  pub in_time :
      v.when < when_of s t
      → (c.wake ≡ some v.when)
        × (0 < nobarrier_wake_time c.queue)
        × (nobarrier_wake_time c.queue ≤ v.when)

-- Noting a time changes `timer_modified_earliest` only, to a time that is not later.
note_if_lem :
    (b : Bool) (s : Timers) (n : ℕ)
    → (e : ℕ) × (note_if b s n ≡ record s { timer_modified_earliest = e })
      × (b ≡ true → 0 < n → (0 < e) × (e ≤ n))
unfolding note_if update_timer_modified_earliest
note_if_lem false s n = (s.timer_modified_earliest, refl, λ f. cc)
note_if_lem true s n =
    let old = s.timer_modified_earliest in
    elim (Bool-cases (ltb 0 old && ltb old n)) [
      | inl keep ↦ (old, rw keep refl, λ f pos. ground arith)
      | inr set ↦ (n, rw set refl, λ f pos. (pos, omega arith))
    ]

earliest-IsPlaced :
    (cpu : ℕ) (s : Timers) (e : ℕ)
    → IsPlaced cpu s
    → IsPlaced cpu (record s { timer_modified_earliest = e })
earliest-IsPlaced cpu s e p = record {
  valid = record {
    heap = p.valid.heap;
    counted = p.valid.counted;
    small = p.valid.small;
    first = p.valid.first;
    positive = p.valid.positive;
  };
  placed = p.placed;
}

earliest-wake :
    (s : Timers) (e n : ℕ)
    → 0 < e
    → e ≤ n
    → let w = nobarrier_wake_time (record s { timer_modified_earliest = e }) in (0 < w) × (w ≤ n)
unfolding nobarrier_wake_time
earliest-wake s e n pos le = ground arith

mark_modified-Marked :
    (cpu : ℕ) (pending : Bool) (s : Timers) (t : TimerRef) (v : Settings)
    → IsPlaced cpu s
    → 0 < v.when
    → (c : Change) × (mark_modified pending s t v ≡ done c) × Marked cpu s t v pending c
unfolding mark_modified
mark_modified-Marked cpu pending s t v p pos =
    let x = s.timer t in
    let earlier = ltb v.when x.when in
    let y = marked_timer x v in
    let s1 = set_timer s t y in
    let (e, f, near) = note_if_lem earlier s1 v.when in
    let self : (note_if earlier s1 v.when).timer t ≡ y =
      ap (λ (q : Timers). q.timer t) f ∙ update_self s.timer t y in
    (
      record {
        answer = pending;
        queue = note_if earlier s1 v.when;
        preempt = 2;
        wake = if earlier then some v.when else none;
      },
      refl,
      record {
        placed =
            subst (IsPlaced cpu) (sym f)
              (earliest-IsPlaced cpu s1 e (set_timer-IsPlaced cpu s t y p refl refl));
        answer = refl;
        preempt = refl;
        is_now = self;
        in_time = λ lt.
            let soon = lt→ltb v.when x.when lt in
            let (a, b) = near soon pos in
            let (c, d) = earliest-wake s1 e v.when a b in
            (
              rw soon refl,
              subst (λ q. 0 < nobarrier_wake_time q) (sym f) c,
              subst (λ q. nobarrier_wake_time q ≤ v.when) (sym f) d,
            );
      },
    )

modify_at-Marked :
    (cpu : ℕ) (s : Timers) (t : TimerRef) (v : Settings) (x : Status)
    → IsPlaced cpu s
    → 0 < v.when
    → unsettled x ≡ 0
    → (c : Change) × (modify_at x cpu s t v ≡ done c) × Marked cpu s t v (is_active x) c
unfolding modify_at
modify_at-Marked cpu s t v waiting p pos h = mark_modified-Marked cpu true s t v p pos
modify_at-Marked cpu s t v modified_earlier p pos h = mark_modified-Marked cpu true s t v p pos
modify_at-Marked cpu s t v modified_later p pos h = mark_modified-Marked cpu true s t v p pos
modify_at-Marked cpu s t v deleted p pos h =
    let (c, e, m) =
      mark_modified-Marked cpu false (deleted_less s) t v
        (deleted_timers-IsPlaced cpu s (sub32 s.deleted_timers 1) p) pos in
    (
      c,
      e,
      record {
        placed = m.placed;
        answer = m.answer;
        preempt = m.preempt;
        is_now = m.is_now;
        in_time = m.in_time;
      },
    )
modify_at-Marked cpu s t v no_status p pos h = absurd (omega (arith, h))
modify_at-Marked cpu s t v running p pos h = absurd (omega (arith, h))
modify_at-Marked cpu s t v removing p pos h = absurd (omega (arith, h))
modify_at-Marked cpu s t v removed p pos h = absurd (omega (arith, h))
modify_at-Marked cpu s t v modifying p pos h = absurd (omega (arith, h))
modify_at-Marked cpu s t v moving p pos h = absurd (omega (arith, h))

-- Modifying a settled timer of the heap ends well: the heap stays well formed, the timer keeps its
-- place until it is moved and has the new settings, the answer is whether it was still to be run, and
-- the poller wakes up by an earlier time. Preemption stays disabled twice.
pub timer_modify-Marked :
    (cpu : ℕ) (s : Timers) (t : TimerRef) (v : Settings)
    → IsPlaced cpu s
    → 0 < v.when
    → unsettled (status_of s t) ≡ 0
    → (c : Change) × (timer_modify cpu s t v ≡ done c)
      × Marked cpu s t v (is_active (status_of s t)) c
unfolding timer_modify
timer_modify-Marked cpu s t v p pos h =
    let (c, e, m) = modify_at-Marked cpu s t v (status_of s t) p pos h in
    (c, rw (lt→ltb 0 v.when pos) e, m)
