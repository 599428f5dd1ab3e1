-- ===== src/Scheduler/RandomOrder/Walk.antt =====
-- A walk in the random order visits every position at most once, and ends.
use Prim.Native.Nat.{◌∣◌}
use native.Mathlib.Nat.{
  mod-eq_of_lt, dvd-sub, dvd-mul_right, div-add-mod, mod-add-mod, mod-lt, le_of_dvd, mul-suc,
  mul-add,
}
use pentagon.Prelude.{
  ℕ, zero, suc, ◌+◌, ◌-◌, ◌*◌, ◌/◌, ◌%◌, ◌<◌, ◌≡◌, ◌≢◌, refl, sym, ap, subst, ◌∙◌, arith, true,
  false,
}
use pentagon.Scheduler.RandomOrder.{
  gcd, RandomEnum, random_order_reset, random_order_start, random_enum_done, random_enum_next,
  random_enum_position,
}
use pentagon.Scheduler.RandomOrder.Gcd.{gcd-dvd, started-coprime}

-- The state after `n` rounds of the loop `for (e = start; !done(&e); next(&e))`.
abbrev pub walk : ℕ → RandomEnum → RandomEnum
walk zero e = e
walk (suc n) e = random_enum_next (walk n e)

pub record Walked (n : ℕ) (e : RandomEnum) : Type 0 where
  pub i : (walk n e).i ≡ e.i + n
  pub count : (walk n e).count ≡ e.count
  pub inc : (walk n e).inc ≡ e.inc
  pub pos : (walk n e).pos ≡ (e.pos + e.inc * n) % e.count

walk-Walked : (n : ℕ) (e : RandomEnum) → e.pos < e.count → Walked n e
unfolding random_enum_next
walk-Walked zero e lt = record {
  i = omega arith;
  count = refl;
  inc = refl;
  pos = sym (mod-eq_of_lt lt) ∙ ap (λ y. y % e.count) (omega arith);
}
walk-Walked (suc n) e lt =
    let w = walk-Walked n e lt in
    record {
      i = omega (arith, w.i);
      count = w.count;
      inc = w.inc;
      pos =
          let x = e.pos + e.inc * n in
          ap (λ p. (p + (walk n e).inc) % (walk n e).count) w.pos
          ∙ ap (λ d. (x % e.count + d) % (walk n e).count) w.inc
          ∙ ap (λ c. (x % e.count + e.inc) % c) w.count
          ∙ mod-add-mod x e.count e.inc
          ∙ ap (λ y. y % e.count) (omega (arith, mul-suc e.inc n));
    }

-- Numbers with the same remainder differ by a multiple.
mod_eq-dvd : (c x y : ℕ) → x % c ≡ y % c → c ∣ y - x
mod_eq-dvd c x y e =
    let difference : c * (y / c) - c * (x / c) ≡ y - x =
      omega (arith, div-add-mod x c, div-add-mod y c, e) in
    subst (λ d. c ∣ d) difference (dvd-sub c (dvd-mul_right c (y / c)) (dvd-mul_right c (x / c)))

-- Two states of the walk less than `count` rounds apart stand at different positions.
walk-ne :
    (e : RandomEnum) (j d : ℕ)
    → e.pos < e.count
    → gcd e.inc e.count ≡ 1
    → 0 < d
    → d < e.count
    → (walk j e).pos ≢ (walk (j + d) e).pos
walk-ne e j d lt co pos small same =
    let a = walk-Walked j e lt in
    let b = walk-Walked (j + d) e lt in
    let far : e.count ∣ e.pos + e.inc * (j + d) - (e.pos + e.inc * j) =
      mod_eq-dvd e.count (e.pos + e.inc * j) (e.pos + e.inc * (j + d)) (sym a.pos ∙ same ∙ b.pos) in
    let apart : e.pos + e.inc * (j + d) - (e.pos + e.inc * j) ≡ e.inc * d =
      omega (arith, mul-add e.inc j d) in
    let all : e.count ∣ gcd e.inc e.count * d =
      gcd-dvd e.count e.inc e.count d (subst (λ x. e.count ∣ x) apart far)
        (dvd-mul_right e.count d) in
    let own : e.count ∣ d = subst (λ x. e.count ∣ x) (ap (λ g. g * d) co ∙ omega arith) all in
    absurd (omega (arith, le_of_dvd pos own))

-- The loop over the random order of `count` CPUs: as many rounds as there are CPUs, each at the index
-- of a CPU, and no two at the same one.
pub record Visits (count : ℕ) (e : RandomEnum) : Type 0 where
  pub inside : (k : ℕ) → random_enum_position (walk k e) < count
  pub apart :
      (j k : ℕ)
      → j < k
      → k < count
      → random_enum_position (walk j e) ≢ random_enum_position (walk k e)
  pub goes_on : (k : ℕ) → k < count → random_enum_done (walk k e) ≡ false
  pub ends : random_enum_done (walk count e) ≡ true

-- For a positive number of CPUs and any start, the loop over the random order takes as many rounds as
-- there are CPUs, each at a CPU, and no CPU twice.
pub random_order_start-Visits :
    (count i : ℕ) → 0 < count → Visits count (random_order_start (random_order_reset count) i)
unfolding random_order_reset random_order_start random_enum_position random_enum_done
random_order_start-Visits count i pos =
    let e = random_order_start (random_order_reset count) i in
    let lt : e.pos < e.count = mod-lt i pos in
    let co = started-coprime count i pos in
    record {
      inside = λ k.
          let w = walk-Walked k e lt in
          subst (λ x. x < count) (sym w.pos) (mod-lt (e.pos + e.inc * k) pos);
      apart = λ j k jk kc.
          let k' : j + (k - j) ≡ k = omega arith in
          subst (λ x. (walk j e).pos ≢ (walk x e).pos) k'
            (walk-ne e j (k - j) lt co (omega arith) (omega arith));
      goes_on =
          λ k kc. let w = walk-Walked k e lt in let a = w.i in let b = w.count in ground arith;
      ends = let w = walk-Walked count e lt in let a = w.i in let b = w.count in ground arith;
    }
