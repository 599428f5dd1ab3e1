-- ===== src/Sync/NotifyList/System.antt =====
-- Any number of threads that take a ticket, wait with it, and notify, one action at a time.
use pentagon.Prelude.{ℕ, ◌+◌, ◌%◌, ◌^◌, ◌<◌, Bool, true, false, List, [], ◌∷◌, ◌++◌, NotIn}
use pentagon.Sync.NotifyList.{
  NotifyList, notify_list_add, notify_list_wait, notify_list_notify_all, notify_list_notify_one,
}
use pentagon.Sync.NotifyList.Window.{without}

-- The list; how many tickets were ever handed out and how many notified; and the numbers of the
-- tickets of the parked waiters.
pub record System : Type 0 where
  pub list : NotifyList
  pub taken : ℕ
  pub notified : ℕ
  pub parked : List ℕ

abbrev pub numbers_after : Bool → ℕ → List ℕ → List ℕ
numbers_after true k ks = ks ++ (k ∷ [])
numbers_after false k ks = ks

-- After `thread` came to wait with ticket number `k`.
abbrev pub waited : System → ℕ → ℕ → System
waited s thread k =
    let r = notify_list_wait s.list thread (k % 2 ^ 32) in
    record s { list = r.1; parked = numbers_after r.0 k s.parked }

-- As the header file asks, the tickets handed out and not yet notified stay fewer than 2 ^ 31; and no
-- ticket is waited for after 2 ^ 31 later ones were notified. A ticket is waited for once. With no
-- ticket to notify, `notify_list_notify_one` does nothing, which is no step.
pub data Step (s : System) : System → Type 0 where
  add :
      s.taken + 1 < s.notified + 2 ^ 31
      → Step s (record s { list = (notify_list_add s.list).1; taken = s.taken + 1 })
  wait :
      (thread k : ℕ)
      → k < s.taken
      → s.notified < k + 2 ^ 31
      → NotIn k s.parked
      → Step s (waited s thread k)
  notify_all :
      Step s
        (record s { list = (notify_list_notify_all s.list).1; notified = s.taken; parked = [] })
  notify_one :
      s.notified < s.taken
      → Step s (record s {
        list = (notify_list_notify_one s.list).1;
        notified = s.notified + 1;
        parked = without s.notified s.parked;
      })

abbrev pub nothing : System
nothing = record {
  list = record { wait = 0; notify = 0; waiters = [] };
  taken = 0;
  notified = 0;
  parked = [];
}

pub data Reach : System → Type 0 where
  begin : Reach nothing
  then_step : {s t : System} → Reach s → Step s t → Reach t
