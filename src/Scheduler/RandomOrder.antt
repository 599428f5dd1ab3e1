-- ===== src/Scheduler/RandomOrder.antt =====
-- kernel/thread/scheduler.c, the random order in which a CPU looks at the others. `count` is an int
-- and the positions are below it, so the sums of uint32_t here do not wrap.
pub mod Gcd
pub mod Walk
use pentagon.Prelude.{ℕ, zero, suc, ◌+◌, ◌/◌, ◌%◌, Bool, List, [], ◌∷◌, ◌==◌, if◌then◌else◌, length}

-- The loop of `gcd`; the second number falls in every round, so it is fuel enough.
unfoldable pub gcd_loop : ℕ → ℕ → ℕ → ℕ
gcd_loop zero a b = a
gcd_loop (suc f) a b = let rest = gcd_loop f b (a % b) in if b == 0 then a else rest

unfoldable pub gcd : ℕ → ℕ → ℕ
gcd a b = gcd_loop b a b

-- `m_random_order_count` and `m_random_order_coprimes`.
pub record RandomOrder : Type 0 where
  pub count : ℕ
  pub coprimes : List ℕ

-- The loop of `random_order_reset` from `i` on, for `n` rounds.
unfoldable pub coprimes_from : ℕ → ℕ → ℕ → List ℕ
coprimes_from zero i count = []
coprimes_from (suc n) i count =
    let rest = coprimes_from n (i + 1) count in if gcd i count == 1 then i ∷ rest else rest

unfoldable pub random_order_reset : ℕ → RandomOrder
random_order_reset count = record { count = count; coprimes = coprimes_from count 1 count }

pub record RandomEnum : Type 0 where
  pub i : ℕ
  pub count : ℕ
  pub pos : ℕ
  pub inc : ℕ

-- The element at an index, 0 out of range.
abbrev pub nth : List ℕ → ℕ → ℕ
nth [] k = 0
nth (x ∷ xs) zero = x
nth (x ∷ xs) (suc k) = nth xs k

unfoldable pub random_order_start : RandomOrder → ℕ → RandomEnum
random_order_start o i = record {
  i = 0;
  count = o.count;
  pos = i % o.count;
  inc = nth o.coprimes ((i / o.count) % length o.coprimes);
}

unfoldable pub random_enum_done : RandomEnum → Bool
random_enum_done e = e.i == e.count

unfoldable pub random_enum_next : RandomEnum → RandomEnum
random_enum_next e = record e { i = e.i + 1; pos = (e.pos + e.inc) % e.count }

unfoldable pub random_enum_position : RandomEnum → ℕ
random_enum_position e = e.pos
