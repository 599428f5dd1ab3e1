-- ===== src/Timer/Heap.antt =====
-- kernel/thread/timer.c, the timer heap: `siftup_timer` and `siftdown_timer`. The array holds timer
-- addresses, `when` is the field of each timer; slot `i` has the children `4 * i + 1` to `4 * i + 4`.
pub mod Order
pub mod Up
pub mod Down
use pentagon.Prelude.{
  ℕ, zero, suc, ◌+◌, ◌-◌, ◌*◌, ◌/◌, ◌&&◌, true, false, ltb, leb, ◌==◌, if◌then◌else◌, update,
}

abbrev pub TimerRef : Type 0
TimerRef = ℕ

abbrev pub Slots : Type 0
Slots = ℕ → TimerRef

abbrev pub parent : ℕ → ℕ
parent i = (i - 1) / 4

-- The `while (i > 0)` of `siftup_timer`; each round lowers `i`, so fuel `i` is enough.
unfoldable pub siftup_loop : ℕ → (TimerRef → ℕ) → ℕ → Slots → ℕ → Slots × ℕ
siftup_loop zero w when a i = (a, i)
siftup_loop (suc f) w when a i =
    let again = siftup_loop f w when (update a i (a (parent i))) (parent i) in
    if i == 0 then (a, i) else (if leb (w (a (parent i))) when then (a, i) else again)

-- The saved timer goes to the free slot: `if (tmp != timers[i]) timers[i] = tmp`.
abbrev pub put_back : Slots → ℕ → TimerRef → Slots
put_back a i t = if t == a i then a else update a i t

-- The new array and the smallest changed index. The ASSERTs are the callers' duty: `i` is in the
-- array and the timer's `when` is positive.
unfoldable pub siftup_timer : (TimerRef → ℕ) → Slots → ℕ → Slots × ℕ
siftup_timer w a i = let (a', j) = siftup_loop i w (w (a i)) a i in (put_back a' j (a i), j)

-- The earlier of two neighbouring children, the first one on a tie; the second may not be there.
unfoldable pub earlier_of_pair : (TimerRef → ℕ) → Slots → ℕ → ℕ → ℕ
earlier_of_pair w a n c = if ltb (c + 1) n && ltb (w (a (c + 1))) (w (a c)) then c + 1 else c

-- The child that `siftdown_timer` compares with, at a slot that has at least one.
unfoldable pub earliest_child : (TimerRef → ℕ) → Slots → ℕ → ℕ → ℕ
earliest_child w a n i =
    let left = earlier_of_pair w a n (i * 4 + 1) in
    let mid = earlier_of_pair w a n (i * 4 + 3) in
    if ltb (i * 4 + 3) n && ltb (w (a mid)) (w (a left)) then mid else left

-- The `while (true)` of `siftdown_timer`; each round raises `i` below `n`, so fuel `n` is enough.
unfoldable pub siftdown_loop : ℕ → (TimerRef → ℕ) → ℕ → ℕ → Slots → ℕ → Slots × ℕ
siftdown_loop zero w when n a i = (a, i)
siftdown_loop (suc f) w when n a i =
    let child = earliest_child w a n i in
    let again = siftdown_loop f w when n (update a i (a child)) child in
    if leb n (i * 4 + 1) then (a, i) else (if leb when (w (a child)) then (a, i) else again)

unfoldable pub siftdown_timer : (TimerRef → ℕ) → Slots → ℕ → ℕ → Slots
siftdown_timer w a n i = let (a', j) = siftdown_loop n w (w (a i)) n a i in put_back a' j (a i)
