-- ===== src/Scheduler/RandomOrder/Gcd.antt =====
-- What divides the `gcd`, and that only 1 does for the collected numbers.
use Prim.Native.Nat.{◌∣◌}
use native.Mathlib.Nat.{
  dvd-add_iff_right, dvd-mul_right_of_dvd, add-mul, div-add-mod, mod-lt, mod-eq_of_lt,
  mul_right_comm,
}
use pentagon.Prelude.{
  ℕ, zero, suc, ◌+◌, ◌*◌, ◌/◌, ◌%◌, ◌≤◌, ◌<◌, ◌≡◌, refl, sym, ap, subst, ◌∙◌, inl, inr, arith, true,
  false, Bool-cases, List, [], ◌∷◌, ◌==◌, length,
}
use pentagon.Scheduler.RandomOrder.{
  gcd_loop, gcd, coprimes_from, nth, random_order_reset, random_order_start,
}

-- A divisor of two products with `c` divides the product of the remainder, so that of the gcd.
remainder-dvd : (k a b c : ℕ) → k ∣ a * c → k ∣ b * c → k ∣ a % b * c
remainder-dvd k a b c da db =
    let parts : a * c ≡ b * c * (a / b) + a % b * c =
      sym (ap (λ x. x * c) (div-add-mod a b))
      ∙ add-mul (b * (a / b)) (a % b) c
      ∙ ap (λ x. x + a % b * c) (mul_right_comm b (a / b) c) in
    (dvd-add_iff_right k (dvd-mul_right_of_dvd k db (a / b))).1 (subst (λ x. k ∣ x) parts da)

gcd_loop-dvd : (f k a b c : ℕ) → b ≤ f → k ∣ a * c → k ∣ b * c → k ∣ gcd_loop f a b * c
unfolding gcd_loop
gcd_loop-dvd zero k a b c le da db = da
gcd_loop-dvd (suc f) k a b c le da db = elim (Bool-cases (b == 0)) [
  | inl e ↦ rw e da
  | inr ne ↦
      let pos : 0 < b = ground arith in
      let small : a % b ≤ f = omega (arith, mod-lt a pos) in
      rw ne (gcd_loop-dvd f k b (a % b) c small db (remainder-dvd k a b c da db))
]

pub gcd-dvd : (k a b c : ℕ) → k ∣ a * c → k ∣ b * c → k ∣ gcd a b * c
unfolding gcd
gcd-dvd k a b c = gcd_loop-dvd b k a b c (omega arith)

-- Every collected number is coprime to the count, and there is one if the count is positive.
abbrev AllCoprime : ℕ → List ℕ → Type 0
AllCoprime count [] = Unit
AllCoprime count (x ∷ xs) = (gcd x count ≡ 1) × AllCoprime count xs

coprimes_from-AllCoprime : (n i count : ℕ) → AllCoprime count (coprimes_from n i count)
unfolding coprimes_from
coprimes_from-AllCoprime zero i count = tt
coprimes_from-AllCoprime (suc n) i count = elim (Bool-cases (gcd i count == 1)) [
  | inl e ↦ rw e (ground arith, coprimes_from-AllCoprime n (i + 1) count)
  | inr ne ↦ rw ne (coprimes_from-AllCoprime n (i + 1) count)
]

nth-AllCoprime :
    (count : ℕ) (xs : List ℕ) (k : ℕ)
    → AllCoprime count xs
    → k < length xs
    → gcd (nth xs k) count ≡ 1
nth-AllCoprime count [] k h lt = absurd (omega arith)
nth-AllCoprime count (x ∷ xs) zero h lt = h.0
nth-AllCoprime count (x ∷ xs) (suc k) h lt = nth-AllCoprime count xs k h.1 (omega arith)

gcd_loop-zero : (f a : ℕ) → gcd_loop f a 0 ≡ a
unfolding gcd_loop
gcd_loop-zero zero a = refl
gcd_loop-zero (suc f) a = refl

gcd-one : (n : ℕ) → gcd 1 (suc n) ≡ 1
unfolding gcd gcd_loop
gcd-one zero = refl
gcd-one (suc n) =
    let r : 1 % suc (suc n) ≡ 1 = mod-eq_of_lt (omega arith) in
    let r' : suc (suc n) % 1 ≡ 0 = omega arith in
    let t : (suc (suc n) == 0) ≡ false = ground arith in rw (r, r', t) (gcd_loop-zero n 1)

coprimes_from-nonempty : (n : ℕ) → 0 < length (coprimes_from (suc n) 1 (suc n))
unfolding coprimes_from
coprimes_from-nonempty n =
    let e : (gcd 1 (suc n) == 1) ≡ true = rw (gcd-one n) refl in rw e (omega arith)

-- What `random_order_start` takes as its step is coprime to a positive count.
pub started-coprime :
    (count i : ℕ) → 0 < count → gcd (random_order_start (random_order_reset count) i).inc count ≡ 1
unfolding random_order_reset random_order_start
started-coprime zero i pos = elim pos [ ]
started-coprime (suc n) i pos =
    let xs = coprimes_from (suc n) 1 (suc n) in
    nth-AllCoprime (suc n) xs ((i / suc n) % length xs) (coprimes_from-AllCoprime (suc n) 1 (suc n))
      (mod-lt (i / suc n) (coprimes_from-nonempty n))
