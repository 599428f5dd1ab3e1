-- ===== src/Util/String/Moving.antt =====
-- `memmove` for ranges that overlap in any way.
use native.Mathlib.Decide.{ℕ_discrete}
use pentagon.Prelude.{
  ℕ, zero, suc, ◌+◌, ◌-◌, ◌<◌, ◌≤◌, ◌≡◌, inl, inr, refl, sym, ap, ◌∙◌, fun_ext, arith, ltb, update,
  update-ne, Bool-cases,
}
use pentagon.Util.String.{Bytes, move_down, memmove}
use pentagon.Util.String.Words.{overwrite, overwrite-nil, overwrite-agree}
use pentagon.Util.String.Copying.{memcpy-overwrite}

-- The last byte of a range written first.
overwrite-last :
    (m : Bytes) (d k : ℕ) (g : ℕ → ℕ) (a : ℕ)
    → overwrite (update m (d + k) (g k)) d k g a ≡ overwrite m d (suc k) g a
overwrite-last m d k g a = elim (ℕ_discrete a (d + k)) [
  | yes here ↦
      let place : a - d ≡ k = omega (arith, here) in
      let last : g (a - d) ≡ g k = ap g place in ground (arith, here, last)
  | no ne ↦ ground (arith, ne)
]

move_down-overwrite :
    (k d s lastd lasts : ℕ) (m : Bytes) (a : ℕ)
    → s ≤ d
    → (0 < k → lastd + 1 ≡ d + k)
    → (0 < k → lasts + 1 ≡ s + k)
    → move_down k lastd lasts m a ≡ overwrite m d k (λ j. m (s + j)) a
unfolding move_down
move_down-overwrite zero d s lastd lasts m a le hd hs = sym (overwrite-nil m d (λ j. m (s + j)) a)
move_down-overwrite (suc k) d s lastd lasts m a le hd hs =
    let top : lastd ≡ d + k = omega (arith, hd (omega arith)) in
    let from : lasts ≡ s + k = omega (arith, hs (omega arith)) in
    let m' = update m (d + k) (m (s + k)) in
    rw (top, from)
      (move_down-overwrite k d s ((d + k) - 1) ((s + k) - 1) m' a le (λ p. omega (arith, p))
          (λ p. omega (arith, p))
        ∙ overwrite-agree m' m' d k (λ j. m' (s + j)) (λ j. m (s + j)) a refl
            (λ j lt. update-ne m (d + k) (s + j) (m (s + k)) (omega (arith, le, lt)))
        ∙ overwrite-last m d k (λ j. m (s + j)) a)

-- On memory of bytes, `memmove` is the copy byte by byte of what the source held before the call, for
-- every two ranges, overlapping or not, and every length.
pub memmove-overwrite :
    (d s len : ℕ) (m : Bytes)
    → ((a : ℕ) → m a < 256)
    → memmove d s len m ≡ overwrite m d len (λ j. m (s + j))
unfolding memmove
memmove-overwrite d s len m small = elim (Bool-cases (ltb d s)) [
  | inl below ↦
      let le : d ≤ s = ground (arith, below) in
      rw below (memcpy-overwrite d s len m (record { small = small; clear = inl le }))
  | inr above ↦
      let le : s ≤ d = ground (arith, above) in
      rw above (
        fun_ext (λ a.
          move_down-overwrite len d s (d + (len - 1)) (s + (len - 1)) m a le (λ p. omega (arith, p))
            (λ p. omega (arith, p))))
]
