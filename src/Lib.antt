-- ===== src/Lib.antt =====
-- pentagon: the scheduling, synchronisation and memory core of the kernel.
--
-- The kernel runs many light threads on a few CPUs. What is modelled, by file:
--
--   Scheduler/ThreadQueue  kernel/thread/scheduler.c, `thread_queue_t`: the queue of threads that are
--                          linked through `sched_link`. A thread is its address, a number.
--   Scheduler/RunQueue     kernel/thread/scheduler.c, the local run queues (`run_queue_put`,
--                          `run_queue_get`, the slow path) and the global one that they spill into.
--   Scheduler/GlobalQueue  kernel/thread/scheduler.c, `global_run_queue_get`.
--   Scheduler/Steal        kernel/thread/scheduler.c, `run_queue_grab` and `run_queue_steal`.
--   Scheduler/RandomOrder  kernel/thread/scheduler.c, the random order of the CPUs to steal from.
--   Scheduler/Suspend      kernel/thread/scheduler.c, `scheduler_suspend_thread` and
--                          `scheduler_resume_thread`, with `cas_thread_state` of thread.c.
--   Thread/FreeThreads     kernel/thread/thread.c, `get_free_thread` and the end of `release_thread`.
--   Thread/WaitingCache    kernel/thread/thread.c, `acquire_waiting_thread` and
--                          `release_waiting_thread`.
--   Timer/Heap             kernel/thread/timer.c, `siftup_timer` and `siftdown_timer`: the timers of a
--                          CPU are a heap of four children a node, by the time they are due.
--   Timer/Queue            kernel/thread/timer.c, the timer queue of a CPU on that heap:
--                          `do_add_timer`, `do_delete_timer` and `do_delete_timer0`.
--   Timer/Life             kernel/thread/timer.c, the life of a timer: `timer_start`,
--                          `timer_modify`, `clean_timers`, `run_one_timer` and `run_timer`, and all
--                          interleavings of the atomic actions of `timer_stop`.
--   Waitable/WaitQueue     kernel/thread/waitable.c, the doubly linked queues of waiting threads, and
--                          the select flag of a thread that decides who wakes it.
--   Waitable/Channel       kernel/thread/waitable.c, `waitable_send` and `waitable_wait`, each up to
--                          where the thread parks; `scheduler_ready_thread` appends to a list.
--   Waitable/Close         kernel/thread/waitable.c, `waitable_close`, and what a thread answers that
--                          was parked in `waitable_send` or `waitable_wait`.
--   Waitable/Select        kernel/thread/waitable.c, the random polling order of `waitable_select`, the
--                          locking, unlocking and parking over its lock order, and the poll of one
--                          waitable (Poll to receive from it, Offer to send to it).
--   Sync/Semaphore         kernel/sync/semaphore.c, the queue of the waiters, and all interleavings of
--                          the atomic actions of `semaphore_acquire` and `semaphore_release`.
--   Sync/Mutex             kernel/sync/mutex.c, all interleavings of the atomic actions of locking and
--                          unlocking. The word `state` is a record of its bits and its count.
--   Sync/NotifyList        kernel/sync/notify_list.c, in all interleavings of its calls.
--   Sync/WaitGroup         kernel/sync/wait_group.c, in all interleavings of its calls in which no
--                          two in `wait_group_add` overlap between the counter's coming to 0 and the
--                          reset of the state.
--   Util/ListEntry         kernel/util/list.c, the doubly linked lists.
--   Util/String            kernel/util/string.c: blocks of memory by words (`memcpy`, `memset`,
--                          `memmove`), strings (Text) and `strtoul` (Number).
--   Memory/Vmm             kernel/mem/vmm.c, the page tables: mapping, unmapping, allocation and the
--                          page fault handler, with the allocator of frames as a parameter.
--   Memory/Stack           kernel/mem/stack.c, the pool of stacks, on the lists of Util/ListEntry.
--   Prelude                shared names, tests, lists, arrays as functions, uint32_t.
--
-- How the code is read. A structure is a record and each function returns the new state. An array
-- that the code indexes modulo its length is a function on indices. `head` and `tail` of a run queue
-- are uint32_t and wrap, written `% 2 ^ 32`; the int32_t sizes are plain numbers, since C leaves
-- their overflow undefined. A failed ASSERT stops the kernel and is `none`, or `panic` where a call can
-- also wait for another CPU (`waits`).
-- The timers of the whole kernel are a store, part of the state of a timer queue; times are
-- microseconds and plain numbers.
--
-- Interleavings. The modules under Sync, Scheduler/Suspend and
-- Timer/Life/Stop/Race have a state for the shared object and
-- for where the threads stand between two atomic actions, a step relation with one constructor per
-- action, and the states reached from the initial one. The mutex and the wait group see the semaphore
-- as its number of permits.
--
-- Bounds and fuel. A function of the run queues is run with no other CPU between its steps, while
-- each compare-exchange stays a test against memory. A retry loop takes fuel 1 (`attempts`): the
-- theorems show that one round is enough then. The loops of the heap take the start index or the
-- size as fuel, since the index falls or rises in every round;
-- `wait_queue_dequeue` takes a fuel above the length of the queue, `run_timer` and `clean_timers` one
-- above the number of timers, since a timer leaves the heap in each round, `get_free_thread` 2, since
-- its list is not empty in the second round, and `gcd` its second number, which falls. The loops of
-- `do_map` and `vmm_alloc` take the number of pages, those of `memcpy` and `memset` the number of bytes,
-- and those over a string a fuel above its length; fuel that runs out there is `waits`.
--
-- Memory. The recursive mapping, slot 510 of the highest table, shows all page tables as one array,
-- `PAGE_TABLE_PML1`, with the other three arrays inside of that slot, and so they are modelled: an entry
-- of a higher table is also an entry of a page in the slot. An ordinary page is one outside of the slot
-- and of the direct map, where the code unmaps pages as it goes. Each `__invlpg` is recorded and has no
-- further effect. Bytes of memory are a function on addresses.
--
-- Not modelled: TLSF, the printf and stb_ds libraries and the buddy allocator are other projects'
-- code; assembly glue, port I/O, interrupt tables and the C# parts are outside. Interleavings of
-- several CPUs inside one run queue operation, inside one call on a waitable, or inside a call on a
-- timer but `timer_stop`, are not modelled.
pub mod Prelude
pub mod Memory
pub mod Scheduler
pub mod Sync
pub mod Thread
pub mod Timer
pub mod Util
pub mod Waitable
