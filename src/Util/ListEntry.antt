-- ===== src/Util/ListEntry.antt =====
-- kernel/util/list.c: rings of `list_entry_t`, of which the head of the list is one.
pub mod Ring
pub mod Laws
mod Tests
use pentagon.Prelude.{ℕ, Bool, Option, none, some, ◌==◌, if◌then◌else◌, update}

abbrev pub EntryRef : Type 0
EntryRef = ℕ

-- The fields `next` and `prev` of every entry.
pub record Entries : Type 0 where
  pub next : EntryRef → EntryRef
  pub prev : EntryRef → EntryRef

unfoldable pub list_init : Entries → EntryRef → Entries
list_init s list = record { next = update s.next list list; prev = update s.prev list list }

unfoldable pub list_add_internal : Entries → EntryRef → EntryRef → EntryRef → Entries
list_add_internal s p n new = record {
  next = update (update s.next new n) p new;
  prev = update (update s.prev n new) new p;
}

unfoldable pub list_add : Entries → EntryRef → EntryRef → Entries
list_add s head new = list_add_internal s head (s.next head) new

unfoldable pub list_add_tail : Entries → EntryRef → EntryRef → Entries
list_add_tail s head new = list_add_internal s (s.prev head) head new

unfoldable pub list_del : Entries → EntryRef → Entries
list_del s entry =
    let p = s.prev entry in
    let n = s.next entry in
    record {
      next = update (update s.next p n) entry 0xAAAAAAAAAAAAAAAA;
      prev = update (update s.prev n p) entry 0xBBBBBBBBBBBBBBBB;
    }

unfoldable pub list_is_empty : Entries → EntryRef → Bool
list_is_empty s head = s.next head == head

-- The entry that is taken out, NULL if there is none.
unfoldable pub list_pop : Entries → EntryRef → Option EntryRef × Entries
unfolding list_is_empty
list_pop s head =
    if list_is_empty s head then (none, s) else (some (s.prev head), list_del s (s.prev head))
