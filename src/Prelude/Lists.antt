-- ===== src/Prelude/Lists.antt =====
-- Lists over the native numbers: length, parts, membership and distinctness as tuples.
use Prim.Native.Nat.{ℕ, zero, suc, ◌+◌, ◌-◌}
use mathlib.Core.Path.{◌≡◌, refl, sym, ap}
use mathlib.Core.Logic.{◌≢◌}
use mathlib.Core.Option.{Option, none, some}
use mathlib.Core.List.{List, [], ◌∷◌, ◌++◌}
use native.Mathlib.Omega.{arith}

module _ {ℓ} {A : Type ℓ} where
  abbrev pub length : List A → ℕ
  length [] = 0
  length (_ ∷ xs) = suc (length xs)

  abbrev pub take : ℕ → List A → List A
  take zero _ = []
  take (suc n) [] = []
  take (suc n) (x ∷ xs) = x ∷ take n xs

  abbrev pub drop : ℕ → List A → List A
  drop zero xs = xs
  drop (suc n) [] = []
  drop (suc n) (_ ∷ xs) = drop n xs

  abbrev pub first? : List A → Option A
  first? [] = none
  first? (x ∷ _) = some x

  abbrev pub last? : List A → Option A
  last? [] = none
  last? (x ∷ []) = some x
  last? (_ ∷ y ∷ ys) = last? (y ∷ ys)

  pub length-append : (xs ys : List A) → length (xs ++ ys) ≡ length xs + length ys
  length-append [] ys = omega arith
  length-append (x ∷ xs) ys = omega (arith, length-append xs ys)

  pub take-append-drop : (n : ℕ) (xs : List A) → take n xs ++ drop n xs ≡ xs
  take-append-drop zero xs = refl
  take-append-drop (suc n) [] = refl
  take-append-drop (suc n) (x ∷ xs) = ap (λ r. x ∷ r) (take-append-drop n xs)

  pub length-drop : (n : ℕ) (xs : List A) → length (drop n xs) ≡ length xs - n
  length-drop zero xs = omega arith
  length-drop (suc n) [] = omega arith
  length-drop (suc n) (x ∷ xs) = omega (arith, length-drop n xs)

  pub last?-append : (xs : List A) (y : A) (ys : List A) → last? (xs ++ (y ∷ ys)) ≡ last? (y ∷ ys)
  last?-append [] y ys = refl
  last?-append (x ∷ []) y ys = refl
  last?-append (x ∷ z ∷ xs) y ys = last?-append (z ∷ xs) y ys

module _ {ℓ} {A : Type ℓ} where
  pub take-append : (n : ℕ) (xs ys : List A) → n ≡ length xs → take n (xs ++ ys) ≡ xs
  take-append zero [] ys e = refl
  take-append zero (x ∷ xs) ys e = absurd (omega arith)
  take-append (suc n) [] ys e = absurd (omega arith)
  take-append (suc n) (x ∷ xs) ys e = ap (λ r. x ∷ r) (take-append n xs ys (omega arith))

  pub drop-append : (n : ℕ) (xs ys : List A) → n ≡ length xs → drop n (xs ++ ys) ≡ ys
  drop-append zero [] ys e = refl
  drop-append zero (x ∷ xs) ys e = absurd (omega arith)
  drop-append (suc n) [] ys e = absurd (omega arith)
  drop-append (suc n) (x ∷ xs) ys e = drop-append n xs ys (omega arith)

-- `a` is not in the list; no two places of the list hold the same.
abbrev pub NotIn : ℕ → List ℕ → Type 0
NotIn a [] = Unit
NotIn a (x ∷ xs) = (x ≢ a) × NotIn a xs

abbrev pub Distinct : List ℕ → Type 0
Distinct [] = Unit
Distinct (x ∷ xs) = NotIn x xs × Distinct xs

-- No element of the first list is in the second.
abbrev pub Apart : List ℕ → List ℕ → Type 0
Apart [] ys = Unit
Apart (x ∷ xs) ys = NotIn x ys × Apart xs ys

pub NotIn-append : (a : ℕ) (xs ys : List ℕ) → NotIn a xs → NotIn a ys → NotIn a (xs ++ ys)
NotIn-append a [] ys h k = k
NotIn-append a (x ∷ xs) ys h k = (h.0, NotIn-append a xs ys h.1 k)

pub NotIn-of_append : (a : ℕ) (xs ys : List ℕ) → NotIn a (xs ++ ys) → NotIn a xs × NotIn a ys
NotIn-of_append a [] ys h = (tt, h)
NotIn-of_append a (x ∷ xs) ys h = let r = NotIn-of_append a xs ys h.1 in ((h.0, r.0), r.1)

pub Distinct-append :
    (xs ys : List ℕ) → Distinct xs → Distinct ys → Apart xs ys → Distinct (xs ++ ys)
Distinct-append [] ys d e p = e
Distinct-append (x ∷ xs) ys d e p = (NotIn-append x xs ys d.0 p.0, Distinct-append xs ys d.1 e p.1)

pub Distinct-of_append :
    (xs ys : List ℕ)
    → Distinct (xs ++ ys)
    → record { left : Distinct xs; right : Distinct ys; apart : Apart xs ys }
Distinct-of_append [] ys d = record { left = tt; right = d; apart = tt }
Distinct-of_append (x ∷ xs) ys d =
    let r = Distinct-of_append xs ys d.1 in
    let n = NotIn-of_append x xs ys d.0 in
    record { left = (n.0, r.left); right = r.right; apart = (n.1, r.apart) }

pub Apart-snoc : (xs ys : List ℕ) (a : ℕ) → Apart xs ys → NotIn a xs → Apart xs (ys ++ (a ∷ []))
Apart-snoc [] ys a p n = tt
Apart-snoc (x ∷ xs) ys a p n =
    (NotIn-append x ys (a ∷ []) p.0 ((λ e. n.0 (omega arith)), tt), Apart-snoc xs ys a p.1 n.1)

pub Apart-nil : (xs : List ℕ) → Apart xs []
Apart-nil [] = tt
Apart-nil (x ∷ xs) = (tt, Apart-nil xs)

pub Apart-single : (xs : List ℕ) (a : ℕ) → NotIn a xs → Apart xs (a ∷ [])
Apart-single xs a n = Apart-snoc xs [] a (Apart-nil xs) n

pub Apart-append : (xs ys zs : List ℕ) → Apart xs ys → Apart xs zs → Apart xs (ys ++ zs)
Apart-append [] ys zs p q = tt
Apart-append (x ∷ xs) ys zs p q = (NotIn-append x ys zs p.0 q.0, Apart-append xs ys zs p.1 q.1)

pub Apart-of_append : (xs ys zs : List ℕ) → Apart xs (ys ++ zs) → Apart xs ys × Apart xs zs
Apart-of_append [] ys zs p = (tt, tt)
Apart-of_append (x ∷ xs) ys zs p =
    let n = NotIn-of_append x ys zs p.0 in
    let r = Apart-of_append xs ys zs p.1 in ((n.0, r.0), (n.1, r.1))

pub append-Apart : (xs ys zs : List ℕ) → Apart xs zs → Apart ys zs → Apart (xs ++ ys) zs
append-Apart [] ys zs p q = q
append-Apart (x ∷ xs) ys zs p q = (p.0, append-Apart xs ys zs p.1 q)

Apart-cons : (ys : List ℕ) (x : ℕ) (xs : List ℕ) → NotIn x ys → Apart ys xs → Apart ys (x ∷ xs)
Apart-cons [] x xs n p = tt
Apart-cons (y ∷ ys) x xs n p = (((λ e. n.0 (sym e)), p.0), Apart-cons ys x xs n.1 p.1)

pub Apart-symm : (xs ys : List ℕ) → Apart xs ys → Apart ys xs
Apart-symm [] ys p = Apart-nil ys
Apart-symm (x ∷ xs) ys p = Apart-cons ys x xs p.0 (Apart-symm xs ys p.1)
