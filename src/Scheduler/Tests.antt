-- ===== src/Scheduler/Tests.antt =====
-- The run queues at concrete values.
use pentagon.Prelude.{
  ◌≡◌, refl, true, false, none, some, List, [], ◌∷◌, ◌++◌, arith, ◌==◌, if◌then◌else◌,
}
use pentagon.Scheduler.ThreadQueue.{Thread, Links, ThreadQueue, push_back_all}
use pentagon.Scheduler.ThreadQueue.Refine.{Holds}
use pentagon.Scheduler.RunQueue.{LocalRunQueue, Scheduler, window, run_queue_put, run_queue_get}
use pentagon.Scheduler.RunQueue.Invariant.{Queues}
use pentagon.Scheduler.RunQueue.Put.{Shows, run_queue_put-Shows}
use pentagon.Scheduler.RunQueue.Take.{run_queue_get-Shows}
use pentagon.Scheduler.GlobalQueue.{share, global_run_queue_get, global_get-Queues}
use pentagon.Scheduler.RandomOrder.{random_order_reset, random_order_start}
use pentagon.Scheduler.RandomOrder.Walk.{Visits, random_order_start-Visits}
use pentagon.Scheduler.Steal.{run_queue_steal}
use pentagon.Scheduler.Steal.Queues.{Local}
use pentagon.Scheduler.Steal.Refine.{Stolen, steal-half, steal-next}

-- CPU 0 has three threads that go round the end of the array and one to run next; CPU 1 has none.
-- The global queue holds threads 1000 and 1001.
abbrev busy : LocalRunQueue
busy = record { head = 254; tail = 257; queue = λ i. i; next = some 7 }

abbrev idle : LocalRunQueue
idle = record { head = 10; tail = 10; queue = λ i. 0; next = none }

abbrev links : Links
links t = if t == 1000 then some 1001 else none

abbrev machine : Scheduler
machine = record {
  links = links;
  global = record { head = some 1000; tail = some 1001 };
  global_size = 2;
  cpu_count = 2;
  local = λ cpu. if cpu == 0 then busy else idle;
}

global-Holds : Holds links (record { head = some 1000; tail = some 1001 }) (1000 ∷ 1001 ∷ [])
global-Holds = record { chain = (refl, (refl, refl)); last = refl; distinct = omega arith }

busy-Shows :
    Shows machine 0 (record { next = some 7; own = 254 ∷ 255 ∷ 0 ∷ []; global = 1000 ∷ 1001 ∷ [] })
unfolding window
busy-Shows = record {
  valid = record { head_small = omega arith; tail_small = omega arith; fits = omega arith };
  upcoming = refl;
  own = refl;
  global = global-Holds;
  counted = refl;
  once = omega arith;
}

idle-Queues : Queues machine 1 none [] (1000 ∷ 1001 ∷ [])
unfolding window
idle-Queues = record {
  valid = record { head_small = omega arith; tail_small = omega arith; fits = omega arith };
  upcoming = refl;
  own = refl;
  global = global-Holds;
  counted = refl;
  once = omega arith;
}

-- Thread 8 is to run next, and thread 7, which was, goes to the end of the local queue.
run_queue_put-Shows_example :
    (s' : Scheduler) × (run_queue_put machine 0 8 true ≡ some s')
    × Shows s' 0 (record { next = some 8; own = 254 ∷ 255 ∷ 0 ∷ 7 ∷ []; global = 1000 ∷ 1001 ∷ [] })
run_queue_put-Shows_example =
    run_queue_put-Shows machine 0 8 true
      (record { next = some 7; own = 254 ∷ 255 ∷ 0 ∷ []; global = 1000 ∷ 1001 ∷ [] }) busy-Shows
      (omega arith)

run_queue_get-Shows_example :
    (s' : Scheduler) × (run_queue_get machine 0 ≡ some (some 7, s'))
    × Shows s' 0 (record { next = none; own = 254 ∷ 255 ∷ 0 ∷ []; global = 1000 ∷ 1001 ∷ [] })
run_queue_get-Shows_example =
    run_queue_get-Shows machine 0
      (record { next = some 7; own = 254 ∷ 255 ∷ 0 ∷ []; global = 1000 ∷ 1001 ∷ [] }) busy-Shows

global_get-Queues_example :
    (s' : Scheduler) × (global_run_queue_get machine 1 0 ≡ some (some 1000, s'))
    × Queues s' 1 none (1001 ∷ []) []
unfolding share
global_get-Queues_example =
    global_get-Queues machine 1 0 none 1000 [] (1001 ∷ []) idle-Queues (omega arith)

busy-Local : Local (machine.local 0) (some 7) (254 ∷ 255 ∷ 0 ∷ [])
busy-Local = record { valid = busy-Shows.valid; upcoming = refl; own = busy-Shows.own }

idle-Local : Local (machine.local 1) none []
idle-Local = record { valid = idle-Queues.valid; upcoming = refl; own = idle-Queues.own }

steal-half_example :
    (s' : Scheduler) × (x : Thread) × (a : List Thread) × (run_queue_steal machine 1 0 false
      ≡ some (some x, s'))
    × (a ++ (x ∷ []) ≡ 254 ∷ 255 ∷ [])
    × Stolen machine s' 1 0 none (some 7) a (0 ∷ [])
steal-half_example =
    steal-half machine 1 0 none (some 7) [] (254 ∷ 255 ∷ 0 ∷ []) (omega arith) idle-Local busy-Local
      false 1 refl (omega arith)

-- CPU 1 has only a thread to run next, which CPU 0 takes.
abbrev waiting : Scheduler
waiting = record machine { local = λ cpu. if cpu == 0 then busy else record idle { next = some 9 } }

waiting-Local : Local (waiting.local 1) (some 9) []
waiting-Local = record {
  valid = record { head_small = omega arith; tail_small = omega arith; fits = omega arith };
  upcoming = refl;
  own = idle-Queues.own;
}

steal-next_example :
    (s' : Scheduler) × (run_queue_steal waiting 0 1 true ≡ some (some 9, s'))
    × Stolen waiting s' 0 1 (some 7) none (254 ∷ 255 ∷ 0 ∷ []) []
steal-next_example =
    steal-next waiting 0 1 (some 7) (some 9) (254 ∷ 255 ∷ 0 ∷ []) [] (omega arith) busy-Local
      waiting-Local 9 refl refl (omega arith)

-- Two queues are joined; the link behind thread 21 is ended.
abbrev two_links : Links
two_links t = if t == 20 then some 21 else (if t == 21 then some 99 else links t)

two-Holds : Holds two_links (record { head = some 1000; tail = some 1001 }) (1000 ∷ 1001 ∷ [])
two-Holds = record { chain = (refl, (refl, refl)); last = refl; distinct = omega arith }

abbrev joined : Links × ThreadQueue
joined =
    push_back_all two_links (record { head = some 1000; tail = some 1001 })
      (record { head = some 20; tail = some 21 })

random_order_start-Visits_example : Visits 6 (random_order_start (random_order_reset 6) 16)
random_order_start-Visits_example = random_order_start-Visits 6 16 (omega arith)
