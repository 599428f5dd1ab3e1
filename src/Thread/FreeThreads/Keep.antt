-- ===== src/Thread/FreeThreads/Keep.antt =====
-- No free thread is lost.
use pentagon.Prelude.{
  ℕ, zero, suc, ◌+◌, ◌-◌, ◌≤◌, ◌≡◌, refl, sym, subst, arith, some, List, [], ◌∷◌, length, Distinct,
  Apart, Apart-symm, update, update_self,
}
use pentagon.Scheduler.ThreadQueue.{Thread, Links}
use pentagon.Scheduler.ThreadQueue.Refine.{Chain, Chain-update}
use pentagon.Thread.FreeThreads.{
  ThreadList, thread_list_push, thread_list_pop, move_threads, FreeThreads,
}

abbrev pub Listed : Links → ThreadList → List Thread → Type 0
Listed l q ts = Chain l q.head ts × (q.count ≡ length ts)

-- Two lists of free threads that have no thread in common.
pub record Disjoint (l : Links) (p q : ThreadList) (xs ys : List Thread) : Type 0 where
  pub left : Listed l p xs
  pub right : Listed l q ys
  pub distinct : Distinct xs × Distinct ys
  pub apart : Apart xs ys

-- The lists after at most `n` threads went from the first to the second.
abbrev pub moved : ℕ → List Thread → List Thread → List Thread × List Thread
moved zero xs ys = (xs, ys)
moved (suc n) [] ys = ([], ys)
moved (suc n) (x ∷ xs) ys = moved n xs (x ∷ ys)

pub move_threads-Disjoint :
    (n : ℕ) (l : Links) (p q : ThreadList) (xs ys : List Thread)
    → Disjoint l p q xs ys
    → let r = move_threads n l p q in let m = moved n xs ys in Disjoint r.0 r.1 r.2 m.0 m.1
unfolding move_threads thread_list_pop thread_list_push
move_threads-Disjoint zero l p q xs ys d = d
move_threads-Disjoint (suc n) l p q [] ys d =
    subst
      (λ h.
        let r = move_threads (suc n) l (record { head = h; count = p.count }) q in
        Disjoint r.0 r.1 r.2 [] ys)
      (sym (d.left.0))
      (record { left = (refl, d.left.1); right = d.right; distinct = d.distinct; apart = d.apart })
move_threads-Disjoint (suc n) l p q (x ∷ xs) ys d =
    let l1 = update l x q.head in
    let p1 : ThreadList = record { head = l x; count = p.count - 1 } in
    let q1 : ThreadList = record { head = some x; count = q.count + 1 } in
    let d1 : Disjoint l1 p1 q1 xs (x ∷ ys) = record {
      left = (Chain-update l x q.head (l x) xs d.distinct.0.0 d.left.0.1, omega (arith, d.left.1));
      right = (
        (
          refl,
          subst (λ h. Chain l1 h ys) (sym (update_self l x q.head))
              (Chain-update l x q.head q.head ys d.apart.0 d.right.0),
        ),
        omega (arith, d.right.1),
      );
      distinct = (d.distinct.0.1, (d.apart.0, d.distinct.1));
      apart = Apart-symm (x ∷ ys) xs (d.distinct.0.0, Apart-symm xs ys d.apart.1);
    } in
    subst
      (λ h.
        let r = move_threads (suc n) l (record { head = h; count = p.count }) q in
        let m = moved n xs (x ∷ ys) in Disjoint r.0 r.1 r.2 m.0 m.1)
      (sym (d.left.0.0)) (move_threads-Disjoint n l1 p1 q1 xs (x ∷ ys) d1)

-- The lists of the free threads of a CPU and of the kernel.
abbrev pub AreFree : FreeThreads → List Thread → List Thread → Type 0
AreFree s xs ys = Disjoint s.links s.local s.global xs ys

pub swap :
    (l : Links) (p q : ThreadList) (xs ys : List Thread)
    → Disjoint l p q xs ys
    → Disjoint l q p ys xs
swap l p q xs ys d = record {
  left = d.right;
  right = d.left;
  distinct = (d.distinct.1, d.distinct.0);
  apart = Apart-symm xs ys d.apart;
}

pub moved-longer : (n : ℕ) (xs ys : List Thread) → length ys ≤ length (moved n xs ys).1
moved-longer zero xs ys = omega arith
moved-longer (suc n) [] ys = omega arith
moved-longer (suc n) (x ∷ xs) ys = omega (arith, moved-longer n xs (x ∷ ys))

pub moved-rest : (n : ℕ) (xs ys : List Thread) → length (moved n xs ys).0 ≡ length xs - n
moved-rest zero xs ys = omega arith
moved-rest (suc n) [] ys = omega arith
moved-rest (suc n) (x ∷ xs) ys = omega (arith, moved-rest n xs (x ∷ ys))
