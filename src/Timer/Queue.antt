-- ===== src/Timer/Queue.antt =====
-- kernel/thread/timer.c, the timer queue of one CPU: adding and deleting with `timers_lock` held.
-- The store of timers is part of the state. Times are int64_t microseconds that are never negative
-- here, so plain numbers; the counters are uint32_t. `none` is a failed ASSERT.
pub mod Add
pub mod Delete
pub mod DeleteAt
use pentagon.Prelude.{
  ℕ, zero, suc, ◌+◌, ◌-◌, ◌&&◌, Bool, true, false, Option, none, some, ltb, ◌==◌, if◌then◌else◌,
  update, add32, sub32,
}
use pentagon.Timer.Heap.{TimerRef, Slots, siftup_timer, siftdown_timer}

pub data Status : Type 0 where
  no_status waiting running deleted removing removed modifying modified_earlier modified_later
        moving :
      Status

-- `timer_t`; `cpu` is `none` for -1, `func` and `arg` are addresses.
pub record Timer : Type 0 where
  pub cpu : Option ℕ
  pub when : ℕ
  pub period : ℕ
  pub func : ℕ
  pub arg : ℕ
  pub seq : ℕ
  pub nextwhen : ℕ
  pub status : Status
  pub ref_count : ℕ

-- `timers_t` of one CPU, with the store of all timers. The array is `slots` below `len`.
pub record Timers : Type 0 where
  pub timer : TimerRef → Timer
  pub slots : Slots
  pub len : ℕ
  pub num_timers : ℕ
  pub deleted_timers : ℕ
  pub timer0_when : ℕ
  pub timer_modified_earliest : ℕ

abbrev pub when_of : Timers → TimerRef → ℕ
when_of s t = (s.timer t).when

abbrev pub set_timer : Timers → TimerRef → Timer → Timers
set_timer s t x = record s { timer = update s.timer t x }

unfoldable pub update_timer0_when : Timers → Timers
update_timer0_when s = record s { timer0_when = if s.len == 0 then 0 else when_of s (s.slots 0) }

-- The loop ends in its first round while nobody else writes the word.
unfoldable pub update_timer_modified_earliest : Timers → ℕ → Timers
update_timer_modified_earliest s next =
    let old = s.timer_modified_earliest in
    if ltb 0 old && ltb old next then s else record s { timer_modified_earliest = next }

abbrev pub is_cpu : Option ℕ → ℕ → Bool
is_cpu none cpu = false
is_cpu (some c) cpu = c == cpu

abbrev pub no_cpu : Option ℕ → Bool
no_cpu none = true
no_cpu (some c) = false

-- The heap without its root; the last timer has taken the place of the root.
unfoldable pub sink_root : Timers → Option Timers
sink_root s =
    if s.len == 0
    then some s
    else (if ltb 0 (when_of s (s.slots 0))
        then some (record s { slots = siftdown_timer (when_of s) s.slots s.len 0 })
        else none)

abbrev pub one_less : Timers → Timers
one_less s = record s { num_timers = sub32 s.num_timers 1 }

unfoldable pub do_delete_timer0 : ℕ → Timers → Option Timers
do_delete_timer0 cpu s =
    let t = s.slots 0 in
    let s1 = set_timer s t (record (s.timer t) { cpu = none }) in
    let rest = s.len - 1 in
    let moved = if rest == 0 then s.slots else update s.slots 0 (s.slots rest) in
    if is_cpu (s.timer t).cpu cpu
    then elim (sink_root (record s1 { slots = moved; len = rest })) [
      | none ↦ none
      | some s2 ↦ some (one_less (update_timer0_when s2))
    ]
    else none

-- The timer now on this CPU, with the reference that the heap holds.
abbrev pub claimed : ℕ → Timer → Timer
claimed cpu x = record x { cpu = some cpu; ref_count = x.ref_count + 1 }

abbrev pub pushed : Timers → TimerRef → Timers
pushed s t =
    let a = (siftup_timer (when_of s) (update s.slots s.len t) s.len).0 in
    record s {
      slots = a;
      len = s.len + 1;
      timer0_when = if t == a 0 then when_of s t else s.timer0_when;
      num_timers = add32 s.num_timers 1;
    }

unfoldable pub do_add_timer : ℕ → Timers → TimerRef → Option Timers
do_add_timer cpu s t =
    if no_cpu (s.timer t).cpu && ltb 0 (when_of s t)
    then some (pushed (set_timer s t (claimed cpu (s.timer t))) t)
    else none

-- Sift up, then down, the timer that fills slot `i`; the result has the smallest changed index.
unfoldable pub resift : Timers → ℕ → Option (Timers × ℕ)
resift s i =
    let (a, j) = siftup_timer (when_of s) s.slots i in
    if ltb 0 (when_of s (s.slots i)) && ltb 0 (when_of s (a i))
    then some (record s { slots = siftdown_timer (when_of s) a s.len i }, j)
    else none

unfoldable pub finish_delete : ℕ → Timers × ℕ → Timers × ℕ
finish_delete i (s, j) = (one_less (if i == 0 then update_timer0_when s else s), j)

unfoldable pub do_delete_timer : Timers → ℕ → Option (Timers × ℕ)
do_delete_timer s i =
    let t = s.slots i in
    let s1 = set_timer s t (record (s.timer t) { cpu = none }) in
    let last = s.len - 1 in
    let filled = record s1 { slots = update s.slots i (s.slots last); len = last } in
    let cut = record s1 { len = last } in
    if i == last
    then some (finish_delete i (cut, i))
    else (elim (resift filled i) [ none ↦ none | some r ↦ some (finish_delete i r) ])
