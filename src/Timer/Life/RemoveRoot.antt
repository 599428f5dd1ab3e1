-- ===== src/Timer/Life/RemoveRoot.antt =====
-- Removing the root of the heap for good, as `clean_timers` and `run_timer` do.
use pentagon.Prelude.{
  ℕ, ◌+◌, ◌-◌, ◌^◌, ◌%◌, ◌<◌, ◌≡◌, refl, fun_ext, ◌∙◌, arith, none, some, update, weigh,
  weigh-elsewhere, one_at,
}
use pentagon.Timer.Heap.{TimerRef}
use pentagon.Timer.Queue.{removing, removed, Timer, Timers}
use pentagon.Timer.Life.{status_of, set_status, release_timer, remove_root}
use pentagon.Timer.Life.Placed.{
  IsPlaced, IsSettled, unsettled, set_timer-IsPlaced, do_delete_timer0-Without,
}

-- A timer that has left the heap for good, with one reference less.
abbrev pub removed_timer : Timer → Timer
removed_timer x = record x {
  cpu = none;
  status = removed;
  ref_count = (x.ref_count + 2 ^ 64 - 1) % 2 ^ 64;
}

pub record Removed (cpu : ℕ) (s s' : Timers) : Type 0 where
  pub placed : IsPlaced cpu s'
  pub shorter : s'.len ≡ s.len - 1
  pub rest : (u : TimerRef → ℕ) → u (s.slots 0) + weigh u s'.len s'.slots ≡ weigh u s.len s.slots
  pub timers : s'.timer ≡ update s.timer (s.slots 0) (removed_timer (s.timer (s.slots 0)))

pub remove_root-Removed :
    (cpu : ℕ) (s : Timers)
    → IsPlaced cpu s
    → 0 < s.len
    → (s' : Timers) × (remove_root cpu s ≡ some s') × Removed cpu s s'
unfolding remove_root
remove_root-Removed cpu s p lt =
    let t = s.slots 0 in
    let s0 = set_status s t removing in
    let p0 = set_timer-IsPlaced cpu s t (record (s.timer t) { status = removing }) p refl refl in
    let (s1, e, d) = do_delete_timer0-Without cpu s0 p0 lt in
    let s2 = set_status s1 t removed in
    let p2 =
      set_timer-IsPlaced cpu s1 t (record (s1.timer t) { status = removed }) d.placed refl refl in
    let x = record (s2.timer t) { ref_count = ((s2.timer t).ref_count + 2 ^ 64 - 1) % 2 ^ 64 } in
    (
      release_timer s2 t,
      rw (e, remove_root) refl,
      record {
        placed = set_timer-IsPlaced cpu s2 t x p2 refl refl;
        shorter = d.shorter;
        rest = d.rest;
        timers = rw d.timers (fun_ext (λ u. ground arith));
      },
    )

-- Settled timers stay settled when the root goes.
pub Removed-IsSettled : (cpu : ℕ) (s s' : Timers) → Removed cpu s s' → IsSettled s → IsSettled s'
Removed-IsSettled cpu s s' r h =
    let t = s.slots 0 in
    let off : (s'.timer t).cpu ≡ none = rw r.timers (ground arith) in
    let gone : weigh (one_at t) s'.len s'.slots ≡ 0 = r.placed.placed t ∙ rw off refl in
    weigh-elsewhere t (λ u. unsettled (status_of s u)) (λ u. unsettled (status_of s' u)) s'.len
      s'.slots gone (λ u ne. rw r.timers (ground arith))
    ∙ omega (arith, r.rest (λ u. unsettled (status_of s u)), h)
