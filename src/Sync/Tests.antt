-- ===== src/Sync/Tests.antt =====
-- The synchronisation primitives at concrete values.
use pentagon.Prelude.{
  ◌+◌, ◌%◌, ◌^◌, ◌<◌, ◌≡◌, refl, arith, true, false, none, some, [], ◌∷◌, ◌==◌, if◌then◌else◌,
  length, Distinct,
}
use pentagon.Sync.Semaphore.{Links, semaphore_queue}
use pentagon.Sync.Semaphore.Queue.{Waiting, semaphore_queue-Waiting}
use pentagon.Sync.Semaphore.System.{
  Semaphore, semaphore_can_acquire, announce, check_or_park, add_permit, look_for_waiters, Reach,
  begin, then_step, enter, settle, release, look, start,
}
use pentagon.Sync.Semaphore.Wakeup.{held, on_the_way, no_lost_wakeup}
use pentagon.Sync.NotifyList.{notify_list_add, notify_list_wait, notify_list_notify_one, less}
use pentagon.Sync.NotifyList.Window.{Current, Found}
use pentagon.Sync.NotifyList.System.{System, nothing, waited, add, wait}
use pentagon.Sync.NotifyList.System
use pentagon.Sync.NotifyList.Notified.{notify_one-Found}

-- Waiters 3, 4 and 5, in this order.
abbrev links : Links
links = record {
  wait_link = λ t. if t == 3 then some 4 else if t == 4 then some 5 else none;
  wait_tail = λ t. if t == 3 then some 5 else none;
  ticket = λ t. 0;
}

links-Waiting : Waiting links (some 3) (3 ∷ 4 ∷ 5 ∷ [])
links-Waiting =
    (refl, record { linked = (refl, (refl, refl)); tail = refl; distinct = omega arith })

semaphore_queue-Waiting_example :
    let r = semaphore_queue links (some 3) 9 true in Waiting r.0 r.1 (9 ∷ 3 ∷ 4 ∷ 5 ∷ [])
semaphore_queue-Waiting_example =
    semaphore_queue-Waiting links (some 3) 9 true (3 ∷ 4 ∷ 5 ∷ []) links-Waiting (refl, refl)
      (omega arith)

-- A thread parks, and another one gives a permit and sees it.
abbrev parked : Semaphore
parked = check_or_park 7 false (announce (start 0))

parked-Reach : Reach 0 parked
unfolding announce
parked-Reach = then_step (then_step begin (enter refl (omega arith))) (settle 7 false refl)

abbrev seen : Semaphore
seen = look_for_waiters (add_permit parked)

seen-Reach : Reach 0 seen
unfolding announce check_or_park semaphore_can_acquire add_permit
seen-Reach = then_step (then_step parked-Reach release) (look (omega arith))

no_lost_wakeup_example :
    (0 < length seen.waiters → 0 < seen.value → 0 < on_the_way seen)
    × (seen.nwait ≡ length seen.waiters + held seen.holder)
    × ((seen.value + seen.taken) % 2 ^ 32 ≡ (0 + seen.given) % 2 ^ 32)
no_lost_wakeup_example = no_lost_wakeup 0 seen (omega arith) seen-Reach

-- Two tickets are taken; the thread with the second one parks first.
abbrev two_taken : System
two_taken = record {
  list = record { wait = 2; notify = 0; waiters = [] };
  taken = 2;
  notified = 0;
  parked = [];
}

two_taken-Reach : System.Reach two_taken
unfolding notify_list_add
two_taken-Reach =
    System.then_step (System.then_step System.begin (add (omega arith))) (add (omega arith))

abbrev both_parked : System
both_parked = waited (waited two_taken 5 1) 4 0

both_parked-Reach : System.Reach both_parked
unfolding notify_list_wait less
both_parked-Reach =
    System.then_step (System.then_step two_taken-Reach (wait 5 1 (omega arith) (omega arith) tt))
      (wait 4 0 (omega arith) (omega arith) (omega arith))

notify_one-Found_example :
    Current both_parked.notified both_parked.taken both_parked.list.waiters both_parked.parked
    × Distinct both_parked.parked
    × (both_parked.notified < both_parked.taken
        → Found both_parked.notified (notify_list_notify_one both_parked.list).0 both_parked.parked)
notify_one-Found_example = notify_one-Found both_parked both_parked-Reach
