-- ===== src/Timer/Life/Clean.antt =====
-- `clean_timers`: what it removes, and what it does at a modified root.
use pentagon.Prelude.{
  done, or_panic, panic, weigh-here, subst, sub32, update-ne, ℕ, zero, suc, ◌-◌, ◌≤◌, ◌<◌, ◌≡◌, ◌≢◌,
  inl, inr, refl, sym, ap, ◌∙◌, arith, Bool, true, false, not, ◌||◌, Bool-cases, Option, none, some,
  ◌==◌, if◌then◌else◌, update_self, weigh, one_at, Outcome, waits, and_then,
}
use native.Mathlib.Decide.{ℕ_discrete}
use pentagon.Timer.Heap.{TimerRef}
use pentagon.Timer.Queue.{
  Status, no_status, waiting, running, deleted, removing, removed, modifying, modified_earlier,
  modified_later, moving, Timer, Timers, set_timer, sink_root, update_timer0_when, do_delete_timer0,
  do_add_timer,
}
use pentagon.Timer.Life.{status_of, is_moving, move_root, deleted_less, clean_root, clean_timers}
use pentagon.Timer.Life.Placed.{IsPlaced, deleted_timers-IsPlaced, slot-home}
use pentagon.Timer.Life.RemoveRoot.{Removed, removed_timer, remove_root-Removed}

do_delete_timer0-status :
    (cpu : ℕ) (s s' : Timers) (t : TimerRef)
    → do_delete_timer0 cpu s ≡ some s'
    → status_of s' t ≡ status_of s t
unfolding do_delete_timer0 sink_root update_timer0_when
do_delete_timer0-status cpu s s' t e = ground arith

do_add_timer-status :
    (cpu : ℕ) (s s' : Timers) (t u : TimerRef)
    → do_add_timer cpu s t ≡ some s'
    → status_of s' u ≡ status_of s u
unfolding do_add_timer
do_add_timer-status cpu s s' t u e = ground arith

or_panic-panic :
    {A B : Type 0} (o : Option A) (f : A → Outcome B)
    → ((a : A) → o ≡ some a → f a ≡ panic)
    → or_panic o f ≡ panic
or_panic-panic none f h = refl
or_panic-panic (some a) f h = h a refl

status_of-set_timer :
    (s : Timers) (t : TimerRef) (x : Timer) → status_of (set_timer s t x) t ≡ x.status
status_of-set_timer s t x = ap (λ (y : Timer). y.status) (update_self s.timer t x)

-- The move of a modified root always ends in a failed ASSERT: the exchange that it expects to fail
-- succeeds.
pub move_root-panic : (cpu : ℕ) (s : Timers) → move_root cpu s ≡ panic
unfolding move_root
move_root-panic cpu s =
    let t = s.slots 0 in
    let x = record (s.timer t) { status = moving; when = (s.timer t).nextwhen } in
    let s1 = set_timer s t x in
    or_panic-panic (do_delete_timer0 cpu s1)
      (λ s2.
        or_panic (do_add_timer cpu s2 t)
          (λ s3. if not (is_moving (status_of s3 t)) then done s3 else panic))
      (λ s2 e.
        or_panic-panic (do_add_timer cpu s2 t)
          (λ s3. if not (is_moving (status_of s3 t)) then done s3 else panic)
          (λ s3 e'.
            let kept : status_of s3 t ≡ moving =
              do_add_timer-status cpu s2 s3 t t e'
              ∙ do_delete_timer0-status cpu s1 s2 t e
              ∙ status_of-set_timer s t x in
            ap (λ y. if not (is_moving y) then done s3 else panic) kept))

abbrev pub is_modified : Status → Bool
is_modified modified_earlier = true
is_modified modified_later = true
is_modified _ = false

-- How `clean_timers` ends: only deleted timers have left, and the root is not one of them unless the
-- thread is to be preempted; a panic needs a modified timer.
pub record Cleaned (cpu : ℕ) (stop : Bool) (s s' : Timers) : Type 0 where
  pub placed : IsPlaced cpu s'
  pub shorter : s'.len ≤ s.len
  pub root : stop ≡ false → 0 < s'.len → status_of s' (s'.slots 0) ≢ deleted
  pub kept :
      (u : TimerRef)
      → status_of s u ≢ deleted
      → (s'.timer u ≡ s.timer u)
        × (weigh (one_at u) s'.len s'.slots ≡ weigh (one_at u) s.len s.slots)

abbrev pub Cleans : ℕ → Bool → Timers → Outcome Timers → Type 0
Cleans cpu stop s (done s') = Cleaned cpu stop s s'
Cleans cpu stop s panic =
    (u : TimerRef) × (0 < weigh (one_at u) s.len s.slots) × (is_modified (status_of s u) ≡ true)
Cleans cpu stop s waits = ⊥

settled_Cleaned :
    (cpu : ℕ) (stop : Bool) (s : Timers)
    → IsPlaced cpu s
    → (stop ≡ false → 0 < s.len → status_of s (s.slots 0) ≢ deleted)
    → Cleaned cpu stop s s
settled_Cleaned cpu stop s p h = record {
  placed = p;
  shorter = omega arith;
  root = h;
  kept = λ u e. (refl, refl);
}

Removed-Cleans :
    (cpu : ℕ) (stop : Bool) (s s1 : Timers) (o : Outcome Timers)
    → Removed cpu s s1
    → status_of s (s.slots 0) ≡ deleted
    → Cleans cpu stop (deleted_less s1) o
    → Cleans cpu stop s o
Removed-Cleans cpu stop s s1 (done s') r e c = record {
  placed = c.placed;
  shorter = omega (arith, c.shorter, r.shorter);
  root = c.root;
  kept = λ u h.
      let other : s.slots 0 ≢ u = λ f. h (rw⁻¹ f e) in
      let same : s1.timer u ≡ s.timer u =
        ap (λ g. g u) r.timers
        ∙ update-ne s.timer (s.slots 0) u (removed_timer (s.timer (s.slots 0))) other in
      let still : status_of s1 u ≢ deleted = λ g. h (ap (λ (y : Timer). y.status) (sym same) ∙ g) in
      let (a, b) = c.kept u still in (a ∙ same, b ∙ ground (arith, r.rest (one_at u), other));
}
Removed-Cleans cpu stop s s1 panic r e (u, there, m) = elim (ℕ_discrete (s.slots 0) u) [
  | yes f ↦
      let off : status_of s1 u ≡ removed = rw (r.timers, f) (ground arith) in
      let bad : is_modified removed ≡ true = rw off at m in cc
  | no other ↦
      let same : s1.timer u ≡ s.timer u =
        ap (λ g. g u) r.timers
        ∙ update-ne s.timer (s.slots 0) u (removed_timer (s.timer (s.slots 0))) other in
      (u, omega (arith, r.rest (one_at u)), ap (λ (y : Timer). is_modified y.status) (sym same) ∙ m)
]
Removed-Cleans cpu stop s s1 waits r e c = elim c [ ]

clean_root-Cleans :
    (cpu : ℕ) (stop : Bool) (s : Timers) (again : Timers → Outcome Timers) (x : Status)
    → IsPlaced cpu s
    → 0 < s.len
    → status_of s (s.slots 0) ≡ x
    → ((s1 : Timers) → IsPlaced cpu s1 → s1.len ≡ s.len - 1 → Cleans cpu stop s1 (again s1))
    → Cleans cpu stop s (clean_root cpu s again x)
unfolding clean_root
clean_root-Cleans cpu stop s again deleted p lt e ih =
    let (s1, f, r) = remove_root-Removed cpu s p lt in
    let p1 = deleted_timers-IsPlaced cpu s1 (sub32 s1.deleted_timers 1) r.placed in
    subst (λ o. Cleans cpu stop s (or_panic o (λ s2. again (deleted_less s2)))) (sym f)
      (Removed-Cleans cpu stop s s1 (again (deleted_less s1)) r e
        (ih (deleted_less s1) p1 r.shorter))
clean_root-Cleans cpu stop s again modified_earlier p lt e ih =
    subst (λ o. Cleans cpu stop s (and_then o again)) (sym (move_root-panic cpu s))
      (s.slots 0, weigh-here s.len s.slots 0 lt, ap is_modified e)
clean_root-Cleans cpu stop s again modified_later p lt e ih =
    subst (λ o. Cleans cpu stop s (and_then o again)) (sym (move_root-panic cpu s))
      (s.slots 0, weigh-here s.len s.slots 0 lt, ap is_modified e)
clean_root-Cleans cpu stop s again no_status p lt e ih = settled_Cleaned cpu stop s p (λ f g h. cc)
clean_root-Cleans cpu stop s again waiting p lt e ih = settled_Cleaned cpu stop s p (λ f g h. cc)
clean_root-Cleans cpu stop s again running p lt e ih = settled_Cleaned cpu stop s p (λ f g h. cc)
clean_root-Cleans cpu stop s again removing p lt e ih = settled_Cleaned cpu stop s p (λ f g h. cc)
clean_root-Cleans cpu stop s again removed p lt e ih = settled_Cleaned cpu stop s p (λ f g h. cc)
clean_root-Cleans cpu stop s again modifying p lt e ih = settled_Cleaned cpu stop s p (λ f g h. cc)
clean_root-Cleans cpu stop s again moving p lt e ih = settled_Cleaned cpu stop s p (λ f g h. cc)

-- With fuel above the number of timers, `clean_timers` ends: it removes deleted timers from the root
-- until the root is not deleted, unless the thread is to be preempted. The other timers stay as they
-- are, and it panics only if there is a modified timer in the heap.
pub clean_timers-Cleans :
    (f cpu : ℕ) (stop : Bool) (s : Timers)
    → IsPlaced cpu s
    → s.len < f
    → Cleans cpu stop s (clean_timers f cpu stop s)
unfolding clean_timers
clean_timers-Cleans zero cpu stop s p lt = absurd (omega arith)
clean_timers-Cleans (suc f) cpu stop s p lt =
    let again = clean_timers f cpu stop in
    elim (Bool-cases (s.len == 0 || stop)) [
      | inl e ↦ rw e (settled_Cleaned cpu stop s p (λ g h k. ground arith))
      | inr e ↦
          let there : 0 < s.len = ground arith in
          let home = slot-home cpu s 0 p there in
          let step =
            clean_root-Cleans cpu stop s again (status_of s (s.slots 0)) p there refl
              (λ s1 p1 short. clean_timers-Cleans f cpu stop s1 p1 (omega arith)) in
          rw (e, home) step
    ]
