-- ===== src/Waitable/Select/Shuffle.antt =====
-- The random order is a permutation.
use native.Mathlib.Decide.{ℕ_discrete}
use native.Mathlib.Nat.{mul-le-mul_right, suc-mul}
use pentagon.Prelude.{
  update_self, ℕ, zero, suc, ◌+◌, ◌^◌, ◌<◌, ◌≡◌, refl, ap, subst, ◌∙◌, arith, update, weigh,
  weigh-update, weigh-suc, weigh-agree, update-ne, SameElements,
}
use pentagon.Waitable.Select.{fastrandn, poll_order}

-- `fastrandn` is below its bound.
pub fastrandn-lt : (r n : ℕ) → r < 2 ^ 32 → 0 < n → n < 2 ^ 32 → fastrandn r n < n
unfolding fastrandn
fastrandn-lt r n lr ln bound = omega (arith, lr, ln, bound, mul-le-mul_right n lr, suc-mul r n)

-- Index `i` goes to place `j`, and what stood there goes to place `i`.
swap-weigh :
    (w : ℕ → ℕ) (i j : ℕ) (p : ℕ → ℕ)
    → j < suc i
    → weigh w (suc i) (update (update p i (p j)) j i) ≡ w i + weigh w i p
swap-weigh w i j p lt =
    let q = update p i (p j) in
    let at_j : q j ≡ p j = elim (ℕ_discrete i j) [
      | yes same ↦ subst (λ k. update p i (p j) k ≡ p j) same (update_self p i (p j))
      | no ne ↦ update-ne p i j (p j) ne
    ] in
    let below : weigh w i q ≡ weigh w i p =
      weigh-agree w i q p (λ k less. update-ne p i k (p j) (omega (arith, less))) in
    let top : w (q i) ≡ w (p j) = ap w (update_self p i (p j)) in
    let moved = weigh-update w (suc i) q j i lt in
    omega (arith, moved, ap w at_j, weigh-suc w i q, below, top)

-- With random 32-bit numbers and fewer than 2 ^ 32 waitables, the polling order has every index below
-- the count exactly once.
pub poll_order-SameElements :
    (random : ℕ → ℕ) (n : ℕ) (pollorder : ℕ → ℕ)
    → ((k : ℕ) → random k < 2 ^ 32)
    → n < 2 ^ 32
    → SameElements n (poll_order random n pollorder) (λ k. k)
unfolding poll_order weigh
poll_order-SameElements random zero pollorder h lt w = refl
poll_order-SameElements random (suc i) pollorder h lt w =
    let p = poll_order random i pollorder in
    let j = fastrandn (random i) (i + 1) in
    let inside : j < i + 1 =
      fastrandn-lt (random i) (i + 1) (h i) (omega arith) (omega (arith, lt)) in
    swap-weigh w i j p (omega (arith, inside))
    ∙ ap (λ x. w i + x) (poll_order-SameElements random i pollorder h (omega (arith, lt)) w)
