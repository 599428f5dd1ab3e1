-- ===== src/Util/String/Number.antt =====
-- kernel/util/string.c, `strtoul` and the tests on characters. A character that is negative as a `char`
-- is none of the classes, like the byte from 128 on here.
pub mod Digits
pub mod Parsed
use pentagon.Prelude.{
  ℕ, zero, suc, ◌+◌, ◌-◌, ◌*◌, ◌/◌, ◌%◌, ◌^◌, Bool, true, false, not, ◌&&◌, ◌||◌, Option, none,
  some, ltb, leb, ◌==◌, if◌then◌else◌, Outcome, done, waits, and_then,
}
use pentagon.Util.String.{Bytes}

unfoldable pub isspace : ℕ → Bool
isspace c = (c == 32) || ((c == 12) || ((c == 10) || ((c == 13) || ((c == 9) || (c == 11)))))

unfoldable pub isdigit : ℕ → Bool
isdigit c = leb 48 c && leb c 57

unfoldable pub isupper : ℕ → Bool
isupper c = leb 65 c && leb c 90

unfoldable pub isalpha : ℕ → Bool
isalpha c = (leb 97 c && leb c 122) || isupper c

abbrev pub ulong_max : ℕ
ulong_max = 18446744073709551615

-- `any`: 0, 1 and -1.
pub data Any : Type 0 where
  no_digits digits overflow : Any

pub record Number : Type 0 where
  pub acc : ℕ
  pub any : Any

-- The value of a character, none where the loop ends.
unfoldable pub digit_of : ℕ → Option ℕ
digit_of c =
    if isdigit c
    then some (c - 48)
    else (if isalpha c then (if isupper c then some (c - 55) else some (c - 87)) else none)

abbrev pub overflowed : Any → Bool
overflowed no_digits = false
overflowed digits = false
overflowed overflow = true

unfoldable pub next_digit : ℕ → ℕ → Number → Number
next_digit base c number =
    let cutoff = ulong_max / base in
    let cutlim = ulong_max % base in
    if overflowed number.any || (ltb cutoff number.acc || ((number.acc == cutoff) && ltb cutlim c))
    then record number { any = overflow }
    else record { acc = (number.acc * base + c) % 2 ^ 64; any = digits }

-- The loop over the digits from the character `c` on, up to the first that is none; `s` points behind
-- it. Fuel above the number of digits is enough.
abbrev pub digit_round :
    (ℕ → Number → Outcome (Number × ℕ)) → ℕ → Option ℕ → ℕ → Number → Outcome (Number × ℕ)
digit_round again base none s number = done (number, s)
digit_round again base (some c) s number =
    let rest = again s (next_digit base c number) in if leb base c then done (number, s) else rest

unfoldable pub digit_loop : ℕ → ℕ → Bytes → ℕ → ℕ → Number → Outcome (Number × ℕ)
digit_loop zero base m c s number = waits
digit_loop (suc f) base m c s number =
    digit_round (λ s number. digit_loop f base m (m s) (s + 1) number) base (digit_of c) s number

-- The loop over the white space; it answers the character behind it, and `s` behind that one.
unfoldable pub skip_space : ℕ → Bytes → ℕ → Outcome (ℕ × ℕ)
skip_space zero m s = waits
skip_space (suc f) m s =
    let rest = skip_space f m (s + 1) in if isspace (m s) then rest else done (m s, s + 1)

abbrev pub skip_sign : Bytes → ℕ × ℕ → Bool × ℕ × ℕ
skip_sign m (c, s) =
    if c == 45 then (true, m s, s + 1) else (if c == 43 then (false, m s, s + 1) else (false, c, s))

-- The prefix of a number to the base 16, and the base.
abbrev pub skip_prefix : Bytes → ℕ → ℕ × ℕ → ℕ × ℕ × ℕ
skip_prefix m base (c, s) =
    if ((base == 0) || (base == 16)) && ((c == 48) && ((m s == 120) || (m s == 88)))
    then (16, m (s + 1), s + 2)
    else (if base == 0 then (if c == 48 then (8, c, s) else (10, c, s)) else (base, c, s))

-- The result, and what is written to `endptr`.
abbrev pub result_value : Bool → ℕ → Any → ℕ
result_value neg acc overflow = ulong_max
result_value neg acc no_digits = if neg then (2 ^ 64 - acc) % 2 ^ 64 else acc
result_value neg acc digits = if neg then (2 ^ 64 - acc) % 2 ^ 64 else acc

abbrev pub end_pointer : ℕ → ℕ → Any → ℕ
end_pointer nptr s no_digits = nptr
end_pointer nptr s digits = s - 1
end_pointer nptr s overflow = s - 1

abbrev pub strtoul_result : ℕ → Bool → Number × ℕ → ℕ × ℕ
strtoul_result nptr neg (number, s) =
    (result_value neg number.acc number.any, end_pointer nptr s number.any)

abbrev pub start_number : Number
start_number = record { acc = 0; any = no_digits }

unfoldable pub strtoul : ℕ → Bytes → ℕ → ℕ → Outcome (ℕ × ℕ)
strtoul f m nptr base = and_then (skip_space f m nptr) (λ r.
    let (neg, c, s) = skip_sign m r in
    let (base', c', s') = skip_prefix m base (c, s) in
    and_then (digit_loop f base' m c' s' start_number) (λ r. done (strtoul_result nptr neg r)))
