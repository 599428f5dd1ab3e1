-- ===== src/Util/String/Number/Digits.antt =====
-- The digits of `strtoul` against the number that they write.
use native.Mathlib.Nat.{div-add-mod, mod-lt, mul-le-mul_right, mul-le-mul_left, suc-mul, mul_comm}
use pentagon.Prelude.{
  ℕ, zero, suc, ◌+◌, ◌*◌, ◌/◌, ◌%◌, ◌^◌, ◌<◌, ◌≤◌, ◌≡◌, ◌⊎◌, inl, inr, refl, ◌∙◌, arith, Bool, true,
  false, ◌&&◌, ◌||◌, none, some, List, [], ◌∷◌, ltb, leb, ◌==◌, Outcome, done, length, Bool-cases,
}
use pentagon.Util.String.{Bytes}
use pentagon.Util.String.Number.{
  ulong_max, Any, no_digits, digits, overflow, Number, overflowed, next_digit, digit_of, digit_loop,
}

-- The number that digits write behind those of `n`.
abbrev pub numeral : ℕ → ℕ → List ℕ → ℕ
numeral base n [] = n
numeral base n (d ∷ ds) = numeral base (n * base + d) ds

-- The state of the loop holds `n`, or tells that `n` is above `ULONG_MAX`.
abbrev pub Holds : ℕ → Number → Type 0
Holds n number =
    ((n ≤ ulong_max) × (number.acc ≡ n) × (overflowed number.any ≡ false))
    ⊎ ((ulong_max < n) × (number.any ≡ overflow))

-- The test for overflow, with the quotient and the remainder of the bound.
above :
    (q r n c base bound : ℕ)
    → base * q + r ≡ bound
    → r < base
    → ltb q n || ((n == q) && ltb r c) ≡ true
    → bound < n * base + c
above q r n c base bound e lt t = elim (Bool-cases (ltb q n)) [
  | inl more ↦
      let le : suc q ≤ n = ground (arith, more) in
      omega (arith, e, lt, mul-le-mul_right base le, suc-mul q base, mul_comm base q)
  | inr no_more ↦
      let same : n ≡ q = ground (arith, t, no_more) in
      let over : r < c = ground (arith, t, no_more) in
      rw same (omega (arith, e, over, mul_comm base q))
]

within :
    (q r n c base bound : ℕ)
    → base * q + r ≡ bound
    → c < base
    → ltb q n || ((n == q) && ltb r c) ≡ false
    → n * base + c ≤ bound
within q r n c base bound e lt t = elim (Bool-cases (ltb n q)) [
  | inl less ↦
      let le : suc n ≤ q = ground (arith, less) in
      omega (arith, e, lt, mul-le-mul_right base le, suc-mul n base, mul_comm base q)
  | inr no_less ↦
      let same : n ≡ q = ground (arith, t, no_less) in
      let under : c ≤ r = ground (arith, t, same) in
      rw same (omega (arith, e, under, mul_comm base q))
]

pub next_digit-Holds :
    (base c n : ℕ) (number : Number)
    → 1 < base
    → c < base
    → Holds n number
    → Holds (n * base + c) (next_digit base c number)
unfolding next_digit
next_digit-Holds base c n number b lt (inl (le, e, ok)) =
    let q = ulong_max / base in
    let r = ulong_max % base in
    let split : base * q + r ≡ ulong_max = div-add-mod ulong_max base in
    let small : r < base = mod-lt ulong_max (omega (arith, b)) in
    elim (Bool-cases (ltb q n || ((n == q) && ltb r c))) [
      | inl t ↦ rw (ok, e, t) (inr (above q r n c base ulong_max split small t, refl))
      | inr t ↦
          let fits : n * base + c ≤ ulong_max = within q r n c base ulong_max split lt t in
          let whole : (n * base + c) % 2 ^ 64 ≡ n * base + c = omega (arith, fits) in
          rw (ok, e, t) (inl (fits, whole, refl))
    ]
next_digit-Holds base c n number b lt (inr (gt, over)) =
    let one : 1 ≤ base = omega (arith, b) in
    inr (omega (arith, gt, mul-le-mul_left n one), rw over refl)

-- A character that ends the digits.
abbrev pub Stops : ℕ → ℕ → Type 0
Stops base c = (digit_of c ≡ none) ⊎ ((d : ℕ) × ((digit_of c ≡ some d) × (base ≤ d)))

-- The character `c` and those from `s` on are the digits, and then one that ends them.
abbrev pub Digits : ℕ → Bytes → ℕ → ℕ → List ℕ → Type 0
Digits base m c s [] = Stops base c
Digits base m c s (d ∷ ds) = (digit_of c ≡ some d) × (d < base) × Digits base m (m s) (s + 1) ds

abbrev pub begun : Any → Bool
begun no_digits = false
begun digits = true
begun overflow = true

pub next_digit-begun : (base c : ℕ) (number : Number) → begun (next_digit base c number).any ≡ true
unfolding next_digit
next_digit-begun base c number =
    elim (Bool-cases (
      overflowed number.any
      || (ltb (ulong_max / base) number.acc
          || ((number.acc == (ulong_max / base)) && ltb (ulong_max % base) c)))) [
            | inl t ↦ rw t refl
            | inr t ↦ rw t refl
          ]

-- What the loop ends with.
pub record Looped (n s : ℕ) (r : Outcome (Number × ℕ)) : Type 0 where
  pub number : Number
  pub ends : r ≡ done (number, s)
  pub holds : Holds n number
  pub any : begun number.any ≡ true

digit_loop-Stops :
    (f base : ℕ) (m : Bytes) (c s : ℕ) (number : Number)
    → Stops base c
    → digit_loop (suc f) base m c s number ≡ done (number, s)
unfolding digit_loop
digit_loop-Stops f base m c s number (inl e) = rw e refl
digit_loop-Stops f base m c s number (inr (d, (e, le))) =
    let stop : leb base d ≡ true = ground (arith, le) in rw (e, stop) refl

pub digit_loop-goes :
    (f base : ℕ) (m : Bytes) (c s d : ℕ) (number : Number)
    → digit_of c ≡ some d
    → d < base
    → digit_loop (suc f) base m c s number
      ≡ digit_loop f base m (m s) (s + 1) (next_digit base d number)
unfolding digit_loop
digit_loop-goes f base m c s d number e lt =
    let go : leb base d ≡ false = ground (arith, lt) in rw (e, go) refl

pub digit_loop-Looped :
    (f base n : ℕ) (m : Bytes) (c s : ℕ) (ds : List ℕ) (number : Number)
    → 1 < base
    → length ds < f
    → Holds n number
    → begun number.any ≡ true
    → Digits base m c s ds
    → Looped (numeral base n ds) (s + length ds) (digit_loop f base m c s number)
digit_loop-Looped zero base n m c s ds number b lt h some_digit v = absurd (omega (arith, lt))
digit_loop-Looped (suc f) base n m c s [] number b lt h some_digit v =
    let here : s + 0 ≡ s = omega arith in
    record {
      number = number;
      ends = rw here (digit_loop-Stops f base m c s number v);
      holds = h;
      any = some_digit;
    }
digit_loop-Looped (suc f) base n m c s (d ∷ ds) number b lt h some_digit v =
    let r =
      digit_loop-Looped f base (n * base + d) m (m s) (s + 1) ds (next_digit base d number) b
        (omega (arith, lt)) (next_digit-Holds base d n number b v.1 h)
        (next_digit-begun base d number) v.2 in
    let place : (s + 1) + length ds ≡ s + suc (length ds) = omega arith in
    record {
      number = r.number;
      ends = rw⁻¹ place (digit_loop-goes f base m c s d number v.0 v.1 ∙ r.ends);
      holds = r.holds;
      any = r.any;
    }
