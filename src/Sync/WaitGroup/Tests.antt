-- ===== src/Sync/WaitGroup/Tests.antt =====
-- A wait group at concrete values.
use pentagon.Prelude.{is_panic, ◌+◌, ◌-◌, ◌^◌, ◌<◌, ◌≡◌, refl, arith, false}
use pentagon.Sync.WaitGroup.{
  nobody, zeroed, WaitGroup, counter, waiters, wait_group_add, wait_group_wait, wake_waiters, Reach,
  begin, then_step, add, wait,
}
use pentagon.Sync.WaitGroup.Waiters.{is_nobody, all_waiters_woken}

-- One task is added, a thread waits, and the task is done.
abbrev one_task : WaitGroup
one_task = record { state = 2 ^ 32; permits = 0; adder = nobody; releasing = 0; parked = 0 }

one_task-Reach : Reach one_task
unfolding wait_group_add
one_task-Reach = then_step begin (add 1 one_task (omega arith) refl)

abbrev waited_for : WaitGroup
waited_for = record { state = 2 ^ 32 + 1; permits = 0; adder = nobody; releasing = 0; parked = 1 }

waited_for-Reach : Reach waited_for
unfolding wait_group_wait
waited_for-Reach = then_step one_task-Reach (wait (omega arith))

abbrev finished : WaitGroup
finished = record { state = 1; permits = 0; adder = zeroed 1; releasing = 0; parked = 1 }

finished-Reach : Reach finished
unfolding wait_group_add
finished-Reach = then_step waited_for-Reach (add (2 ^ 32 - 1) finished (omega arith) refl)

all_waiters_woken_example :
    (finished.parked ≡ waiters finished.state + finished.releasing + finished.permits)
    × (0 < waiters finished.state → counter finished.state ≡ 0 → is_nobody finished.adder ≡ false)
    × (is_panic (wake_waiters finished) ≡ false)
all_waiters_woken_example = all_waiters_woken finished finished-Reach
