-- ===== src/Timer/Life/Stop/Keep.antt =====
-- What each action of `timer_stop` keeps while several CPUs run it.
use pentagon.Prelude.{
  if◌then◌else◌, ℕ, ◌≡◌, ◌≢◌, ◌==◌, refl, sym, ap, subst, ◌∙◌, arith, true, false, Bool-cases, inl,
  inr, update_self,
}
use pentagon.Timer.Heap.{TimerRef}
use pentagon.Timer.Queue.{
  Status, no_status, waiting, running, deleted, removing, removed, modifying, modified_earlier,
  modified_later, moving, Timers,
}
use pentagon.Timer.Life.{status_of, set_status}
use pentagon.Timer.Life.Placed.{IsPlaced, set_timer-IsPlaced}
use pentagon.Timer.Life.Stop.{status_number, exchange_status, Stopper, claimed}
use pentagon.Timer.Life.Stop.Laws.{is_active}
use pentagon.Timer.Life.Stop.Race.{
  World, moved_to, holds, Fits, IsRace, Fits-active, Fits-deleted, at_update, alone_update,
}

pub set_status-status_of :
    (s : Timers) (t : TimerRef) (x : Status) → status_of (set_status s t x) t ≡ x
set_status-status_of s t x =
    ap (λ r. r.status) (update_self s.timer t (record (s.timer t) { status = x }))

pub set_status-IsPlaced :
    (cpu : ℕ) (s : Timers) (t : TimerRef) (x : Status)
    → IsPlaced cpu s
    → IsPlaced cpu (set_status s t x)
set_status-IsPlaced cpu s t x p =
    set_timer-IsPlaced cpu s t (record (s.timer t) { status = x }) p refl refl

abbrev of_number : ℕ → Status
of_number n =
    (if n == 0
      then no_status
      else (if n == 1
          then waiting
          else (if n == 2
              then running
              else (if n == 3
                  then deleted
                  else (if n == 4
                      then removing
                      else (if n == 5
                          then removed
                          else (if n == 6
                              then modifying
                              else (if n == 7
                                  then modified_earlier
                                  else (if n == 8 then modified_later else moving)))))))))

of_number-status_number : (x : Status) → of_number (status_number x) ≡ x
of_number-status_number no_status = refl
of_number-status_number waiting = refl
of_number-status_number running = refl
of_number-status_number deleted = refl
of_number-status_number removing = refl
of_number-status_number removed = refl
of_number-status_number modifying = refl
of_number-status_number modified_earlier = refl
of_number-status_number modified_later = refl
of_number-status_number moving = refl

pub same_number : (x y : Status) → status_number x ≡ status_number y → x ≡ y
same_number x y e = sym (of_number-status_number x) ∙ ap of_number e ∙ of_number-status_number y

-- The second exchange of the CPU that holds the timer succeeds.
pub exchange_same :
    (x y : Status) (s : Timers) (t : TimerRef)
    → status_of s t ≡ x
    → exchange_status x y s t ≡ (true, set_status s t y)
unfolding exchange_status
exchange_same x y s t e =
    let same : (status_number (status_of s t) == status_number x) ≡ true = rw e (ground arith) in
    rw same refl

-- A CPU that does not hold the timer moves on to where it does not, either.
pub quiet :
    (cpu n : ℕ) (t : TimerRef) (g : World) (i : ℕ) (q : Stopper)
    → IsRace cpu n t g
    → holds (g.phase i) ≡ false
    → holds q ≡ false
    → Fits n (status_of g.queue t) g.queue.deleted_timers q
    → IsRace cpu n t (moved_to g i (q, g.queue))
quiet cpu n t g i q v free off f = record {
  placed = v.placed;
  known = v.known;
  fits = λ j.
      at_update (Fits n (status_of g.queue t) g.queue.deleted_timers) g.phase i j q f
        (λ ne. v.fits j);
  alone = λ j k. elim (Bool-cases (i == j)) [
    | inl a ↦ rw a (λ hj. cc)
    | inr a ↦ elim (Bool-cases (i == k)) [
      | inl b ↦ rw (a, b) (λ hj hk. cc)
      | inr b ↦ rw (a, b) (λ hj hk. v.alone j k hj hk)
    ]
  ];
  uncounted = v.uncounted;
  holder = λ e.
      let (j, h) = v.holder e in
      (
        j,
        elim (Bool-cases (i == j)) [
          | inl a ↦
              let same : i ≡ j = ground arith in
              let free_j : holds (g.phase j) ≡ false =
                subst (λ k. holds (g.phase k) ≡ false) same free in
              cc
          | inr a ↦ rw a h
        ],
      );
}

-- The exchange of a CPU that loaded an active status, and of which no other one holds the timer.
pub claim-IsRace :
    (cpu n : ℕ) (t : TimerRef) (g : World) (i : ℕ)
    → IsRace cpu n t g
    → is_active (status_of g.queue t) ≡ true
    → IsRace cpu n t (moved_to g i (claimed, set_status g.queue t modifying))
claim-IsRace cpu n t g i v h =
    let s1 = set_status g.queue t modifying in
    let now = set_status-status_of g.queue t modifying in
    let free = λ (j : ℕ).
      Fits-active n g.queue.deleted_timers s1.deleted_timers (status_of g.queue t) (status_of s1 t)
        (g.phase j) h (v.fits j) in
    record {
      placed = set_status-IsPlaced cpu g.queue t modifying v.placed;
      known = rw now refl;
      fits = λ j.
          at_update (Fits n (status_of s1 t) s1.deleted_timers) g.phase i j claimed
            (now, v.uncounted h) (λ ne. (free j).0);
      alone = alone_update g.phase i claimed (λ j ne. (free j).1);
      uncounted = λ a. let e = ap is_active now in cc;
      holder = λ d. let e = sym now ∙ d in cc;
    }

others_free :
    (cpu n : ℕ) (t : TimerRef) (g : World) (i j : ℕ)
    → IsRace cpu n t g
    → holds (g.phase i) ≡ true
    → i ≢ j
    → holds (g.phase j) ≡ false
others_free cpu n t g i j v h ne = elim (Bool-cases (holds (g.phase j))) [
  | inl k ↦ absurd (ne (v.alone i j h k))
  | inr k ↦ k
]

-- The holder makes the timer deleted, or counts it.
pub finish :
    (cpu n : ℕ) (t : TimerRef) (g : World) (i : ℕ) (q : Stopper) (s1 : Timers)
    → IsRace cpu n t g
    → holds (g.phase i) ≡ true
    → holds q ≡ true
    → IsPlaced cpu s1
    → status_of s1 t ≡ deleted
    → Fits n deleted s1.deleted_timers q
    → IsRace cpu n t (moved_to g i (q, s1))
finish cpu n t g i q s1 v h k p now f =
    let free = λ (j : ℕ) (ne : i ≢ j). others_free cpu n t g i j v h ne in
    record {
      placed = p;
      known = rw now refl;
      fits = λ j. rw now (
          at_update (Fits n deleted s1.deleted_timers) g.phase i j q f (λ ne.
            Fits-deleted n g.queue.deleted_timers s1.deleted_timers (status_of g.queue t)
              (g.phase j) (free j ne) (v.fits j)));
      alone = alone_update g.phase i q free;
      uncounted = λ a. let e = ap is_active now in cc;
      holder = λ d. (i, at_update (λ p. holds p ≡ true) g.phase i i q k (λ ne. absurd (ne refl)));
    }
