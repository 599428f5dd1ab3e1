-- ===== src/Util/String/Text.antt =====
-- kernel/util/string.c: the functions on strings that end in a zero byte, and `memcmp`. The loops take
-- fuel above the length of the shorter string.
pub mod Length
pub mod Append
pub mod Compare
use pentagon.Prelude.{
  ℕ, zero, suc, ◌+◌, ◌-◌, Bool, true, false, not, ◌&&◌, ◌||◌, ltb, ◌==◌, if◌then◌else◌, update,
  Outcome, done, waits, and_then,
}
use pentagon.Util.String.{Bytes}

-- The results -1, 0 and 1.
pub data Sign : Type 0 where
  minus_one equal one : Sign

unfoldable pub strlen_loop : ℕ → Bytes → ℕ → ℕ → Outcome ℕ
strlen_loop zero m str length = waits
strlen_loop (suc f) m str length =
    let rest = strlen_loop f m (str + 1) (length + 1) in
    if not (m str == 0) then rest else done length

abbrev pub strlen : ℕ → Bytes → ℕ → Outcome ℕ
strlen f m str = strlen_loop f m str 0

unfoldable pub strcpy : ℕ → ℕ → ℕ → Bytes → Outcome Bytes
strcpy zero s s2 m = waits
strcpy (suc f) s s2 m =
    let m' = update m s (m s2) in
    let rest = strcpy f (s + 1) (s2 + 1) m' in if not (m s2 == 0) then rest else done m'

-- The loop of `strcat`, and the final zero.
unfoldable pub append_loop : ℕ → ℕ → ℕ → Bytes → Outcome Bytes
append_loop zero ptr source m = waits
append_loop (suc f) ptr source m =
    let rest = append_loop f (ptr + 1) (source + 1) (update m ptr (m source)) in
    if not (m source == 0) then rest else done (update m ptr 0)

unfoldable pub strcat : ℕ → ℕ → ℕ → Bytes → Outcome Bytes
strcat f destination source m =
    and_then (strlen f m destination) (λ length. append_loop f (destination + length) source m)

-- One round of `strcmp`; `rest` is the next one.
abbrev pub compare_bytes : ℕ → ℕ → Outcome Sign → Outcome Sign
compare_bytes ac bc rest =
    if (ac == 0) && (bc == 0)
    then done equal
    else (if ltb ac bc then done minus_one else (if ltb bc ac then done one else rest))

unfoldable pub strcmp : ℕ → Bytes → ℕ → ℕ → Outcome Sign
strcmp zero m a b = waits
strcmp (suc f) m a b = let rest = strcmp f m (a + 1) (b + 1) in compare_bytes (m a) (m b) rest

unfoldable pub memcmp : ℕ → Bytes → ℕ → ℕ → Sign
memcmp zero m lhs rhs = equal
memcmp (suc count) m lhs rhs =
    let rest = memcmp count m (lhs + 1) (rhs + 1) in
    if ltb (m lhs) (m rhs) then minus_one else (if ltb (m rhs) (m lhs) then one else rest)
