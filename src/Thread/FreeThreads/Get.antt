-- ===== src/Thread/FreeThreads/Get.antt =====
-- `get_free_thread` ends, and what it returns.
use pentagon.Prelude.{
  ℕ, suc, ◌-◌, ◌<◌, ◌≡◌, refl, sym, subst, arith, true, not, ◌&&◌, ap, ◌∙◌, Option, none, some,
  List, [], ◌∷◌, length, if◌then◌else◌, done,
}
use pentagon.Scheduler.ThreadQueue.{Thread}
use pentagon.Thread.FreeThreads.{
  thread_list_empty, thread_list_pop, move_threads, FreeThreads, take_some, take_local,
  get_free_thread,
}
use pentagon.Thread.FreeThreads.Keep.{moved, move_threads-Disjoint, AreFree, swap, moved-longer}

-- The first local thread was taken, if there is one.
abbrev pub Took : List Thread → List Thread → Option Thread × FreeThreads → Type 0
Took [] ys r = (r.0 ≡ none) × AreFree r.1 [] ys
Took (x ∷ xs) ys r = (r.0 ≡ some x) × AreFree r.1 xs ys

take_local-Took :
    (s : FreeThreads) (xs ys : List Thread) → AreFree s xs ys → Took xs ys (take_local s)
unfolding thread_list_pop
take_local-Took s [] ys d =
    subst
      (λ h.
        Took [] ys (take_local (record s { local = record { head = h; count = s.local.count } })))
      (sym (d.left.0))
      (
        refl,
        record { left = (refl, d.left.1); right = d.right; distinct = d.distinct; apart = d.apart },
      )
take_local-Took s (x ∷ xs) ys d =
    subst
      (λ h.
        Took (x ∷ xs) ys
          (take_local (record s { local = record { head = h; count = s.local.count } })))
      (sym (d.left.0.0))
      (
        refl,
        record {
          left = (d.left.0.1, omega (arith, d.left.1));
          right = d.right;
          distinct = (d.distinct.0.1, d.distinct.1);
          apart = d.apart.1;
        },
      )

-- With a local thread there is no other round.
get-local :
    (f : ℕ) (s : FreeThreads) (xs ys : List Thread)
    → AreFree s xs ys
    → 0 < length xs
    → get_free_thread (suc f) s ≡ done (take_local s)
unfolding get_free_thread thread_list_empty
get-local f s [] ys d pos = absurd (omega (arith, pos))
get-local f s (x ∷ xs) ys d pos = rw (d.left.0.0) refl

-- Without local threads, up to 32 of the kernel's are moved first.
abbrev pub Gets : List Thread → List Thread → Option Thread × FreeThreads → Type 0
Gets [] ys r = let m = moved 32 ys [] in Took m.1 m.0 r
Gets (x ∷ xs) ys r = Took (x ∷ xs) ys r

take_some-AreFree :
    (s : FreeThreads) (ys : List Thread)
    → AreFree s [] ys
    → let m = moved 32 ys [] in AreFree (take_some s) m.1 m.0
take_some-AreFree s ys d =
    let n : 32 - s.local.count ≡ 32 = omega (arith, d.left.1) in
    let m = moved 32 ys [] in
    let go : AreFree
        (let r = move_threads 32 s.links s.global s.local in
          record { links = r.0; global = r.1; local = r.2 })
        m.1 m.0 =
      let r = move_threads 32 s.links s.global s.local in
      swap r.0 r.1 r.2 m.0 m.1 (
        move_threads-Disjoint 32 s.links s.global s.local ys []
          (swap s.links s.local s.global [] ys d)) in
    subst
      (λ k.
        let r = move_threads k s.links s.global s.local in
        AreFree (record { links = r.0; global = r.1; local = r.2 }) m.1 m.0)
      (sym n) go

-- Two rounds are enough for `get_free_thread` to end: it returns the first local thread, after up to
-- 32 threads of the kernel's list were moved to an empty local one, and none only if both lists are
-- empty. The others stay in the lists, each once, and the counts are right.
pub get_free_thread-Gets :
    (f : ℕ) (s : FreeThreads) (xs ys : List Thread)
    → AreFree s xs ys
    → (r : Option Thread × FreeThreads) × (get_free_thread (suc (suc f)) s ≡ done r) × Gets xs ys r
unfolding get_free_thread thread_list_empty
get_free_thread-Gets f s (x ∷ xs) ys d =
    (take_local s, get-local (suc f) s (x ∷ xs) ys d (omega arith), take_local-Took s (x ∷ xs) ys d)
get_free_thread-Gets f s [] [] d =
    (take_local s, rw (d.left.0, d.right.0) refl, take_local-Took s [] [] d)
get_free_thread-Gets f s [] (y ∷ ys) d =
    let m = moved 31 ys (y ∷ []) in
    let e = take_some-AreFree s (y ∷ ys) d in
    let empty : (thread_list_empty s.local && not (thread_list_empty s.global)) ≡ true =
      rw (d.left.0, d.right.0.0) refl in
    let more : 0 < length m.1 = omega (arith, moved-longer 31 ys (y ∷ [])) in
    (
      take_local (take_some s),
      ap (λ b. if b then get_free_thread (suc f) (take_some s) else done (take_local s)) empty
          ∙ get-local f (take_some s) m.1 m.0 e more,
      take_local-Took (take_some s) m.1 m.0 e,
    )
