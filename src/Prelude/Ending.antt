-- ===== src/Prelude/Ending.antt =====
-- How a call of the kernel ends.
use mathlib.Core.Bool.{Bool, true, false}
use mathlib.Core.Option.{Option, none, some}

-- How a call ends: with a result, stopped by a failed ASSERT, or still waiting for another CPU to
-- change a status (or for more fuel).
pub data Outcome {ℓ} (A : Type ℓ) : Type ℓ where
  done : A → Outcome A
  panic waits : Outcome A

abbrev pub or_panic {ℓ} : {A B : Type ℓ} → Option A → (A → Outcome B) → Outcome B
or_panic none f = panic
or_panic (some a) f = f a

abbrev pub and_then {ℓ} : {A B : Type ℓ} → Outcome A → (A → Outcome B) → Outcome B
and_then (done a) f = f a
and_then panic f = panic
and_then waits f = waits

abbrev pub is_panic {ℓ} : {A : Type ℓ} → Outcome A → Bool
is_panic (done _) = false
is_panic panic = true
is_panic waits = false
