-- ===== src/Util/ListEntry/Tests.antt =====
-- A doubly linked list at concrete values.
use pentagon.Prelude.{refl, arith, [], ◌∷◌, ◌==◌, if◌then◌else◌}
use pentagon.Util.ListEntry.{Entries, list_del}
use pentagon.Util.ListEntry.Ring.{IsList}
use pentagon.Util.ListEntry.Laws.{list_del-IsList}

-- Head 1 with entries 2 and 3.
abbrev two : Entries
two = record {
  next = λ j. if j == 1 then 2 else if j == 2 then 3 else 1;
  prev = λ j. if j == 1 then 3 else if j == 2 then 1 else 2;
}

two-IsList : IsList two 1 (2 ∷ 3 ∷ [])
two-IsList = ((refl, refl, (refl, refl, (refl, refl))), omega arith)

list_del-IsList_example : IsList (list_del two 2) 1 (3 ∷ [])
list_del-IsList_example = list_del-IsList two 1 2 [] (3 ∷ []) two-IsList
