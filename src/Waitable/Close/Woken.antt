-- ===== src/Waitable/Close/Woken.antt =====
-- Which entries of a queue wake their threads, if all of them leave it.
use pentagon.Prelude.{
  ℕ, ◌<◌, ◌≡◌, refl, ap, arith, Bool, true, false, Bool-cases, not, ◌||◌, inl, inr, none, some,
  List, [], ◌∷◌, ◌==◌, if◌then◌else◌, update, length,
}
use pentagon.Waitable.WaitQueue.{ThreadRef, WaitingRef, Store, wins, claim, claim_if}
use pentagon.Waitable.WaitQueue.Dequeue.{winner}

-- `select_done` after an entry has woken its thread.
abbrev pub next_done : (ThreadRef → ℕ) → ThreadRef → Bool → ThreadRef → ℕ
next_done done t false = done
next_done done t true = update done t 1

-- An entry of a select wakes its thread only if nobody has done so; the entries that do, in order,
-- and `select_done` after all of them.
abbrev pub woken :
    (WaitingRef → ThreadRef)
    → (WaitingRef → Bool)
    → (ThreadRef → ℕ)
    → List WaitingRef
    → List WaitingRef × (ThreadRef → ℕ)
woken thread is_select done [] = ([], done)
woken thread is_select done (x ∷ xs) =
    let skipped = woken thread is_select done xs in
    let r = woken thread is_select (next_done done (thread x) (is_select x)) xs in
    if not (is_select x) || (done (thread x) == 0) then (x ∷ r.0, r.1) else skipped

pub woken-none :
    (s : Store) (xs : List WaitingRef)
    → (winner s xs).0 ≡ none
    → woken s.thread s.is_select s.select_done xs ≡ ([], s.select_done)
unfolding winner
woken-none s [] e = refl
woken-none s (x ∷ xs) e = elim (Bool-cases (wins s x)) [
  | inl won ↦ let h : some x ≡ none = rw won at e in cc
  | inr lost ↦ rw lost (woken-none s xs (rw lost at e))
]

claim-next_done :
    (s : Store) (x : WaitingRef) (b : Bool)
    → next_done s.select_done (s.thread x) b ≡ (claim_if s x b).select_done
claim-next_done s x false = refl
claim-next_done s x true = refl

pub woken-some :
    (s : Store) (x : WaitingRef) (xs : List WaitingRef)
    → (winner s xs).0 ≡ some x
    → let r = woken s.thread s.is_select (claim s x).select_done (winner s xs).1 in
      (woken s.thread s.is_select s.select_done xs ≡ (x ∷ r.0, r.1))
      × (length (winner s xs).1 < length xs)
unfolding winner
woken-some s x [] e = cc
woken-some s x (y ∷ xs) e = elim (Bool-cases (wins s y)) [
  | inl won ↦
      let h : some y ≡ some x = rw won at e in
      let same : y ≡ x = cc in
      rw (won, same)
        (
          ap (λ (d : ThreadRef → ℕ). let r = woken s.thread s.is_select d xs in (x ∷ r.0, r.1))
              (claim-next_done s x (s.is_select x)),
          omega arith,
        )
  | inr lost ↦ let r = woken-some s x xs (rw lost at e) in rw lost (r.0, omega (arith, r.1))
]
