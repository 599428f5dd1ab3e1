-- ===== src/Thread/FreeThreads/Release.antt =====
-- What `release_thread` does with the last reference.
use pentagon.Prelude.{
  ℕ, ◌+◌, ◌-◌, ◌<◌, ◌≡◌, refl, sym, subst, arith, true, Bool-cases, inl, inr, some, List, ◌∷◌,
  length, NotIn, update, update_self, if◌then◌else◌, ltb,
}
use pentagon.Scheduler.ThreadQueue.{Thread}
use pentagon.Scheduler.ThreadQueue.Refine.{Chain, Chain-update}
use pentagon.Thread.FreeThreads.{
  thread_list_push, move_threads, FreeThreads, give_some, release_thread,
}
use pentagon.Thread.FreeThreads.Keep.{moved, move_threads-Disjoint, AreFree, moved-rest}

-- How many threads leave a local list of this length when one more is freed.
abbrev pub given : ℕ → ℕ
given k = if ltb (k + 1) 64 then 0 else k + 1 - 31

abbrev after_given : List Thread → List Thread → Thread → List Thread × List Thread
after_given xs ys t = moved (given (length xs)) (t ∷ xs) ys

given-short : (t : Thread) (xs ys : List Thread) → length (after_given xs ys t).0 < 64
given-short t xs ys = elim (Bool-cases (ltb (length xs + 1) 64)) [
  | inl e ↦ rw e (ground arith)
  | inr e ↦ rw e (omega (arith, moved-rest (length xs + 1 - 31) (t ∷ xs) ys))
]

abbrev pushed : FreeThreads → Thread → FreeThreads
pushed s t = record s {
  links = update s.links t s.local.head;
  local = record { head = some t; count = s.local.count + 1 };
}

push-AreFree :
    (s : FreeThreads) (t : Thread) (xs ys : List Thread)
    → AreFree s xs ys
    → NotIn t xs
    → NotIn t ys
    → AreFree (pushed s t) (t ∷ xs) ys
push-AreFree s t xs ys d hx hy =
    let l1 = update s.links t s.local.head in
    record {
      left = (
        (
          refl,
          subst (λ h. Chain l1 h xs) (sym (update_self s.links t s.local.head))
              (Chain-update s.links t s.local.head s.local.head xs hx d.left.0),
        ),
        omega (arith, d.left.1),
      );
      right = (Chain-update s.links t s.local.head s.global.head ys hy d.right.0, d.right.1);
      distinct = ((hx, d.distinct.0), d.distinct.1);
      apart = (hy, d.apart);
    }

abbrev give : ℕ → FreeThreads → FreeThreads
give c s =
    let r = move_threads (c + 1 - 31) s.links s.local s.global in
    record { links = r.0; local = r.1; global = r.2 }

give-AreFree :
    (s : FreeThreads) (t : Thread) (xs ys : List Thread)
    → AreFree s (t ∷ xs) ys
    → let m = after_given xs ys t in
      AreFree (if ltb (length xs + 1) 64 then s else give (length xs) s) m.0 m.1
give-AreFree s t xs ys d = elim (Bool-cases (ltb (length xs + 1) 64)) [
  | inl e ↦ rw e d
  | inr e ↦ rw e (move_threads-Disjoint (length xs + 1 - 31) s.links s.local s.global (t ∷ xs) ys d)
]

-- A dead thread that is in no list comes first in the local list; if there are 64 local threads then,
-- all but 31 go to the kernel's list, the newest first. Each thread stays in the lists once, and the
-- counts are right.
pub release_thread-AreFree :
    (s : FreeThreads) (t : Thread) (xs ys : List Thread)
    → AreFree s xs ys
    → NotIn t xs
    → NotIn t ys
    → let m = moved (given (length xs)) (t ∷ xs) ys in
      (s1 : FreeThreads) × (release_thread true s t ≡ some s1)
      × AreFree s1 m.0 m.1
      × (length m.0 < 64)
unfolding release_thread thread_list_push
release_thread-AreFree s t xs ys d hx hy =
    let e = push-AreFree s t xs ys d hx hy in
    let s1 = pushed s t in
    (
      (if ltb (s.local.count + 1) 64 then s1 else give_some s1),
      refl,
      subst
          (λ c.
            AreFree (if ltb (c + 1) 64 then s1 else give c s1) (after_given xs ys t).0
              (after_given xs ys t).1)
          (sym d.left.1) (give-AreFree s1 t xs ys e),
      given-short t xs ys,
    )
