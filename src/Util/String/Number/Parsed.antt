-- ===== src/Util/String/Number/Parsed.antt =====
-- `strtoul` on a text of white space, a sign and digits.
use pentagon.Prelude.{
  ℕ, zero, suc, ◌+◌, ◌-◌, ◌*◌, ◌%◌, ◌^◌, ◌<◌, ◌≡◌, ◌≢◌, ◌⊎◌, inl, inr, refl, ◌∙◌, arith, Bool, true,
  false, List, ◌∷◌, leb, ◌==◌, if◌then◌else◌, done, length,
}
use pentagon.Util.String.{Bytes}
use pentagon.Util.String.Number.{
  isspace, skip_space, skip_sign, skip_prefix, ulong_max, Any, no_digits, digits, overflow,
  start_number, result_value, end_pointer, next_digit, strtoul,
}
use pentagon.Util.String.Number.Digits.{
  numeral, Holds, Digits, begun, next_digit-Holds, next_digit-begun, digit_loop-goes,
  digit_loop-Looped,
}

-- `k` white space characters from `p` on, and then another one.
abbrev pub Spaces : Bytes → ℕ → ℕ → Type 0
Spaces m p zero = isspace (m p) ≡ false
Spaces m p (suc k) = (isspace (m p) ≡ true) × Spaces m (p + 1) k

-- The sign at `p`, if any, and where the digits begin.
abbrev pub HasSign : Bytes → ℕ → Bool → ℕ → Type 0
HasSign m p neg start =
    ((m p ≡ 45) × (neg ≡ true) × (start ≡ p + 1))
    ⊎ (((m p ≡ 43) × (neg ≡ false) × (start ≡ p + 1))
        ⊎ ((m p ≢ 45) × (m p ≢ 43) × (neg ≡ false) × (start ≡ p)))

skip_space-Spaces :
    (k f : ℕ) (m : Bytes) (p : ℕ)
    → Spaces m p k
    → k < f
    → skip_space f m p ≡ done (m (p + k), (p + k) + 1)
unfolding skip_space
skip_space-Spaces k zero m p h lt = absurd (omega (arith, lt))
skip_space-Spaces zero (suc f) m p h lt = let place : p + 0 ≡ p = omega arith in rw (h, place) refl
skip_space-Spaces (suc k) (suc f) m p h lt =
    let place : (p + 1) + k ≡ p + suc k = omega arith in
    rw (h.0) (rw⁻¹ place (skip_space-Spaces k f m (p + 1) h.1 (omega (arith, lt))))

skip_sign-HasSign :
    (m : Bytes) (p start : ℕ) (neg : Bool)
    → HasSign m p neg start
    → skip_sign m (m p, p + 1) ≡ (neg, m start, start + 1)
skip_sign-HasSign m p start neg (inl (e, n, w)) = rw (e, n, w) refl
skip_sign-HasSign m p start neg (inr (inl (e, n, w))) = rw (e, n, w) refl
skip_sign-HasSign m p start neg (inr (inr (a, b, n, w))) =
    let not_minus : (m p == 45) ≡ false = ground (arith, a) in
    let not_plus : (m p == 43) ≡ false = ground (arith, b) in rw (not_minus, not_plus, n, w) refl

skip_prefix-none :
    (m : Bytes) (base c s : ℕ) → base ≢ 0 → base ≢ 16 → skip_prefix m base (c, s) ≡ (base, c, s)
skip_prefix-none m base c s a b =
    let no_zero : (base == 0) ≡ false = ground (arith, a) in
    let no_hex : (base == 16) ≡ false = ground (arith, b) in rw (no_zero, no_hex) refl

-- The number that is written, as `strtoul` answers it.
abbrev pub answer : Bool → ℕ → ℕ
answer neg n = if leb n ulong_max then (if neg then (2 ^ 64 - n) % 2 ^ 64 else n) else ulong_max

result_value-Holds :
    (neg : Bool) (n acc : ℕ) (any : Any)
    → Holds n (record { acc = acc; any = any })
    → result_value neg acc any ≡ answer neg n
result_value-Holds neg n acc overflow (inl (le, e, ok)) = cc
result_value-Holds neg n acc no_digits (inl (le, e, ok)) =
    let fits : leb n ulong_max ≡ true = ground (arith, le) in rw (fits, e) refl
result_value-Holds neg n acc digits (inl (le, e, ok)) =
    let fits : leb n ulong_max ≡ true = ground (arith, le) in rw (fits, e) refl
result_value-Holds neg n acc overflow (inr (gt, over)) =
    let big : leb n ulong_max ≡ false = ground (arith, gt) in rw big refl
result_value-Holds neg n acc no_digits (inr (gt, over)) = cc
result_value-Holds neg n acc digits (inr (gt, over)) = cc

end_pointer-begun : (p s : ℕ) (any : Any) → begun any ≡ true → end_pointer p s any ≡ s - 1
end_pointer-begun p s no_digits e = absurd cc
end_pointer-begun p s digits e = refl
end_pointer-begun p s overflow e = refl

-- `strtoul` to a base from 2 on, but not 16, reads white space, a sign and at least one digit, given
-- fuel above both numbers of characters: it answers the number, modulo 2 ^ 64 negated after a minus, or
-- ULONG_MAX if the number is above that, and `endptr` points at the character behind the digits.
pub strtoul-Digits :
    (f k : ℕ) (m : Bytes) (nptr base start : ℕ) (neg : Bool) (d : ℕ) (ds : List ℕ)
    → 1 < base
    → base ≢ 16
    → Spaces m nptr k
    → HasSign m (nptr + k) neg start
    → Digits base m (m start) (start + 1) (d ∷ ds)
    → k < f
    → suc (length ds) < f
    → strtoul f m nptr base ≡ done (answer neg (numeral base 0 (d ∷ ds)), start + suc (length ds))
unfolding strtoul
strtoul-Digits zero k m nptr base start neg d ds b hex space sign v lt lt' =
    absurd (omega (arith, lt))
strtoul-Digits (suc f) k m nptr base start neg d ds b hex space sign v lt lt' =
    let first = next_digit base d start_number in
    let begins : Holds 0 start_number = inl (omega arith, refl, refl) in
    let r =
      digit_loop-Looped f base (0 * base + d) m (m (start + 1)) ((start + 1) + 1) ds first b
        (omega (arith, lt')) (next_digit-Holds base d 0 start_number b v.1 begins)
        (next_digit-begun base d start_number) v.2 in
    let loop = digit_loop-goes f base m (m start) (start + 1) d start_number v.0 v.1 ∙ r.ends in
    let last : ((start + 1) + 1 + length ds) - 1 ≡ start + suc (length ds) = omega arith in
    let value =
      result_value-Holds neg (numeral base (0 * base + d) ds) r.number.acc r.number.any r.holds in
    let end = end_pointer-begun nptr ((start + 1) + 1 + length ds) r.number.any r.any ∙ last in
    rw
      (
        skip_space-Spaces k (suc f) m nptr space lt,
        skip_sign-HasSign m (nptr + k) start neg sign,
        skip_prefix-none m base (m start) (start + 1) (omega (arith, b)) hex,
        loop,
        value,
        end,
      )
      refl
