-- ===== src/Prelude/Slots.antt =====
-- Arrays and stores as functions: one place written, and sums over the first places.
use Prim.Native.Nat.{ℕ, zero, suc, ◌+◌, ◌<◌, ◌≤◌}
use mathlib.Core.Path.{◌≡◌, refl, ap, ap₂, subst}
use mathlib.Core.Logic.{◌≢◌}
use native.Mathlib.Decide.{ℕ_discrete}
use native.Mathlib.Omega.{arith}
use pentagon.Prelude.Tests.{◌==◌, if◌then◌else◌}

abbrev pub update {ℓ} : {A : Type ℓ} → (ℕ → A) → ℕ → A → ℕ → A
update slots k x j = if k == j then x else slots j

pub update_self {ℓ} : {A : Type ℓ} (f : ℕ → A) (i : ℕ) (a : A) → update f i a i ≡ a
update_self f i a = ground arith

pub update-ne {ℓ} : {A : Type ℓ} (f : ℕ → A) (i j : ℕ) (a : A) → i ≢ j → update f i a j ≡ f j
update-ne f i j a h = ground arith

-- The elements below `n`, weighed by `w`. Two arrays that weigh the same for every `w` hold the same
-- elements, each as often.
unfoldable pub weigh {ℓ} : {A : Type ℓ} → (A → ℕ) → ℕ → (ℕ → A) → ℕ
weigh w zero a = 0
weigh w (suc n) a = w (a n) + weigh w n a

abbrev pub SameElements : ℕ → (ℕ → ℕ) → (ℕ → ℕ) → Type 0
SameElements n a b = (w : ℕ → ℕ) → weigh w n a ≡ weigh w n b

pub weigh-suc {ℓ} :
    {A : Type ℓ} (w : A → ℕ) (n : ℕ) (a : ℕ → A) → weigh w (suc n) a ≡ w (a n) + weigh w n a
unfolding weigh
weigh-suc w n a = refl

pub weigh-agree {ℓ} :
    {A : Type ℓ} (w : A → ℕ) (n : ℕ) (a b : ℕ → A)
    → ((k : ℕ) → k < n → a k ≡ b k)
    → weigh w n a ≡ weigh w n b
unfolding weigh
weigh-agree w zero a b same = refl
weigh-agree w (suc n) a b same =
    ap₂ ◌+◌ (ap w (same n (omega arith))) (weigh-agree w n a b (λ k lt. same k (omega arith)))

-- A write moves the weight by what is written and what is overwritten.
pub weigh-update {ℓ} :
    {A : Type ℓ} (w : A → ℕ) (n : ℕ) (a : ℕ → A) (k : ℕ) (x : A)
    → k < n
    → w (a k) + weigh w n (update a k x) ≡ w x + weigh w n a
unfolding weigh
weigh-update w zero a k x lt = elim lt [ ]
weigh-update w (suc n) a k x lt = elim (ℕ_discrete k n) [
  | yes top ↦
      let below = weigh-agree w n (update a k x) a (λ j lj. update-ne a k j x (omega arith)) in
      ground (arith, below)
  | no inside ↦ ground (arith, weigh-update w n a k x (omega arith))
]

pub weigh-zero {ℓ} :
    {A : Type ℓ} (v : A → ℕ) (n : ℕ) (a : ℕ → A) (k : ℕ) → weigh v n a ≡ 0 → k < n → v (a k) ≡ 0
unfolding weigh
weigh-zero v zero a k e lt = elim lt [ ]
weigh-zero v (suc n) a k e lt = elim (ℕ_discrete k n) [
  | yes top ↦ ground (arith, ap (λ j. v (a j)) top)
  | no inside ↦ weigh-zero v n a k (omega arith) (omega arith)
]

pub weigh-all_zero {ℓ} :
    {A : Type ℓ} (v : A → ℕ) (n : ℕ) (a : ℕ → A) → ((k : ℕ) → k < n → v (a k) ≡ 0) → weigh v n a ≡ 0
unfolding weigh
weigh-all_zero v zero a h = refl
weigh-all_zero v (suc n) a h =
    omega (arith, h n (omega arith), weigh-all_zero v n a (λ k lt. h k (omega arith)))

-- How often `t` is among the elements, as a weight.
abbrev pub one_at : ℕ → ℕ → ℕ
one_at t u = if u == t then 1 else 0

-- Where `t` is not among the elements, only the weights of the others count.
pub weigh-elsewhere :
    (t : ℕ) (v v' : ℕ → ℕ) (n : ℕ) (a : ℕ → ℕ)
    → weigh (one_at t) n a ≡ 0
    → ((u : ℕ) → u ≢ t → v' u ≡ v u)
    → weigh v' n a ≡ weigh v n a
unfolding weigh
weigh-elsewhere t v v' zero a e same = refl
weigh-elsewhere t v v' (suc n) a e same =
    let other : a n ≢ t = ground (arith, e) in
    ap₂ ◌+◌ (same (a n) other) (weigh-elsewhere t v v' n a (ground (arith, e)) same)

-- An element is counted.
pub weigh-here : (n : ℕ) (a : ℕ → ℕ) (k : ℕ) → k < n → 0 < weigh (one_at (a k)) n a
weigh-here n a k lt = elim (ℕ_discrete (weigh (one_at (a k)) n a) 0) [
  | yes e ↦ absurd (ground (arith, weigh-zero (one_at (a k)) n a k e lt))
  | no ne ↦ omega arith
]

-- What stands at two places is counted twice.
pub weigh-twice :
    (n : ℕ) (a : ℕ → ℕ) (k j : ℕ) → k < n → j < n → k ≢ j → a k ≡ a j → 2 ≤ weigh (one_at (a j)) n a
weigh-twice n a k j lk lj ne e =
    let b = update a k (suc (a j)) in
    let same : b j ≡ a j = update-ne a k j (suc (a j)) ne in
    let rest : 0 < weigh (one_at (a j)) n b =
      subst (λ x. 0 < weigh (one_at x) n b) same (weigh-here n b j lj) in
    ground (arith, weigh-update (one_at (a j)) n a k (suc (a j)) lk, rest, e)
