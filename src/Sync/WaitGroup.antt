-- ===== src/Sync/WaitGroup.antt =====
-- kernel/sync/wait_group.c: the counter and the waiters in one uint64_t. One step is one atomic
-- action. The semaphore is its number of permits: a release gives one, an acquire takes one.
pub mod Waiters
mod Tests
use pentagon.Prelude.{
  ℕ, zero, suc, ◌+◌, ◌-◌, ◌*◌, ◌/◌, ◌%◌, ◌^◌, ◌<◌, ◌≡◌, Bool, true, false, ◌&&◌, ◌||◌, not, ◌==◌,
  ltb, if◌then◌else◌, Outcome, done, panic, waits,
}

-- Where the thread stands that has set the counter to 0: it has this state in hand, or has found it
-- unchanged and is to reset it, and then to wake this many.
pub data Adder : Type 0 where
  nobody : Adder
  zeroed : ℕ → Adder
  checked : ℕ → Adder

-- `wait_group_t`, and the threads inside its functions: `parked` are in `semaphore_acquire`, and
-- `releasing` is how many calls of `semaphore_release` the loops in `wait_group_add` have before them.
pub record WaitGroup : Type 0 where
  pub state : ℕ
  pub permits : ℕ
  pub adder : Adder
  pub releasing : ℕ
  pub parked : ℕ

abbrev pub counter : ℕ → ℕ
counter state = state / 2 ^ 32

abbrev pub waiters : ℕ → ℕ
waiters state = state % 2 ^ 32

-- An int32_t is negative.
abbrev pub is_negative : ℕ → Bool
is_negative x = not (ltb x (2 ^ 31))

-- `wait_group_add` up to where it returns or is to wake the waiters; `delta` is a 32-bit word. Before
-- the waiters are reset it must not be called again, which is `waits`.
abbrev pub added : ℕ → ℕ → WaitGroup → Outcome WaitGroup
added delta state g =
    if is_negative (counter state)
    then panic
    else if not (waiters state == 0)
        && not (delta == 0)
        && not (is_negative delta)
        && counter state == delta
    then panic
    else if ltb 0 (counter state) || waiters state == 0
    then done (record g { state = state })
    else done (record g { state = state; adder = zeroed state })

abbrev pub add_alone : Adder → ℕ → WaitGroup → Outcome WaitGroup
add_alone nobody delta g = added delta ((g.state + delta * 2 ^ 32) % 2 ^ 64) g
add_alone (zeroed _) delta g = waits
add_alone (checked _) delta g = waits

unfoldable pub wait_group_add : ℕ → WaitGroup → Outcome WaitGroup
wait_group_add delta g = add_alone g.adder delta g

unfoldable pub wait_group_done : WaitGroup → Outcome WaitGroup
unfolding wait_group_add
wait_group_done g = wait_group_add (2 ^ 32 - 1) g

abbrev pub wake_next : Adder → WaitGroup → Outcome WaitGroup
wake_next nobody g = waits
wake_next (zeroed state) g =
    if g.state == state then done (record g { adder = checked (waiters state) }) else panic
wake_next (checked w) g = done (record g { state = 0; adder = nobody; releasing = g.releasing + w })

-- The rest of `wait_group_add` up to its loop, the check first and then the reset.
unfoldable pub wake_waiters : WaitGroup → Outcome WaitGroup
wake_waiters g = wake_next g.adder g

-- One `semaphore_release` of a loop in `wait_group_add`.
unfoldable pub release_one : WaitGroup → Outcome WaitGroup
release_one g =
    if g.releasing == 0
    then waits
    else done (record g { permits = g.permits + 1; releasing = g.releasing - 1 })

-- A round of `wait_group_wait` whose compare-exchange succeeds: whether it returns, and the group.
unfoldable pub wait_group_wait : WaitGroup → Bool × WaitGroup
wait_group_wait g =
    if counter g.state == 0
    then (true, g)
    else (false, record g { state = (g.state + 1) % 2 ^ 64; parked = g.parked + 1 })

-- A parked thread gets its permit, and returns.
unfoldable pub wake_up : WaitGroup → Outcome WaitGroup
wake_up g =
    if g.permits == 0
    then waits
    else done (record g { permits = g.permits - 1; parked = g.parked - 1 })

-- There are fewer than 2 ^ 32 threads.
pub data Step (g : WaitGroup) : WaitGroup → Type 0 where
  add : (delta : ℕ) (h : WaitGroup) → delta < 2 ^ 32 → wait_group_add delta g ≡ done h → Step g h
  wake : (h : WaitGroup) → wake_waiters g ≡ done h → Step g h
  release : (h : WaitGroup) → release_one g ≡ done h → Step g h
  wait : g.parked + 1 < 2 ^ 32 → Step g (wait_group_wait g).1
  leave : (h : WaitGroup) → wake_up g ≡ done h → Step g h

abbrev pub empty : WaitGroup
empty = record { state = 0; permits = 0; adder = nobody; releasing = 0; parked = 0 }

pub data Reach : WaitGroup → Type 0 where
  begin : Reach empty
  then_step : {g h : WaitGroup} → Reach g → Step g h → Reach h
