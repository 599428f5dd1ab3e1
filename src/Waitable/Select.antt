-- ===== src/Waitable/Select.antt =====
-- kernel/thread/waitable.c, the orders of `waitable_select`: the random order in which it polls, and
-- the locking of the waitables. Locking answers the addresses that are locked, in order.
pub mod Shuffle
pub mod Taken
pub mod Locks
pub mod Poll
pub mod Offer
use pentagon.Prelude.{
  ◌-◌, ℕ, zero, suc, ◌+◌, ◌*◌, ◌/◌, ◌%◌, ◌^◌, Bool, true, false, not, ◌&&◌, Option, none, some,
  List, [], ◌∷◌, ltb, ◌==◌, if◌then◌else◌, update,
}

-- `fastrandn` of kernel/util/fastrand.c; `r` is what `fastrand` answers.
unfoldable pub fastrandn : ℕ → ℕ → ℕ
fastrandn r n = r * n % 2 ^ 64 / 2 ^ 32

-- The loop that fills `pollorder`; `random` has the numbers that `fastrand` answers.
unfoldable pub poll_order : (ℕ → ℕ) → ℕ → (ℕ → ℕ) → ℕ → ℕ
poll_order random zero pollorder = pollorder
poll_order random (suc i) pollorder =
    let p = poll_order random i pollorder in
    let j = fastrandn (random i) (i + 1) in update (update p i (p j)) j i

abbrev pub is_last : Option ℕ → ℕ → Bool
is_last none w = false
is_last (some last_w) w = last_w == w

-- The loop of `waitable_select_lock` from index `i` on, with `n` indices left.
unfoldable pub select_lock : (ℕ → ℕ) → (ℕ → ℕ) → ℕ → ℕ → Option ℕ → List ℕ
select_lock waitables lockorder zero i last_w = []
select_lock waitables lockorder (suc n) i last_w =
    let w = waitables (lockorder i) in
    let kept = select_lock waitables lockorder n (i + 1) last_w in
    let locked = w ∷ select_lock waitables lockorder n (i + 1) (some w) in
    if not (is_last last_w w) then locked else kept

abbrev pub waitable_select_lock : (ℕ → ℕ) → (ℕ → ℕ) → ℕ → List ℕ
waitable_select_lock waitables lockorder count = select_lock waitables lockorder count 0 none

-- `waitable_select_unlock`, from the last index down.
unfoldable pub waitable_select_unlock : (ℕ → ℕ) → (ℕ → ℕ) → ℕ → List ℕ
waitable_select_unlock waitables lockorder zero = []
waitable_select_unlock waitables lockorder (suc i) =
    let w = waitables (lockorder i) in
    let rest = waitable_select_unlock waitables lockorder i in
    if ltb 0 i && (w == waitables (lockorder (i - 1))) then rest else w ∷ rest

-- The loop of `waitable_select_park` over the waitables of the entries that the thread waits on, in
-- lock order, and the unlocking behind it.
unfoldable pub select_park : List ℕ → Option ℕ → List ℕ
select_park [] none = []
select_park [] (some last_w) = last_w ∷ []
select_park (w ∷ ws) none = select_park ws (some w)
select_park (w ∷ ws) (some last_w) =
    let rest = select_park ws (some w) in if not (w == last_w) then last_w ∷ rest else rest
