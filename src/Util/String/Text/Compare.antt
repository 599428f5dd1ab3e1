-- ===== src/Util/String/Text/Compare.antt =====
-- `strcmp` and `memcmp` against the order of lists.
use pentagon.Prelude.{
  ℕ, zero, suc, ◌+◌, ◌<◌, ◌≡◌, ◌⊎◌, inl, inr, refl, ap, ap₂, ◌∙◌, arith, true, false, List, [], ◌∷◌,
  ltb, ◌==◌, if◌then◌else◌, Outcome, done, length, Bool-cases,
}
use pentagon.Util.String.{Bytes}
use pentagon.Util.String.Text.{Sign, minus_one, equal, one, strcmp, memcmp, strcpy, strlen}
use pentagon.Util.String.Text.Length.{Holds, Holds-agree, strcpy-Written, strlen_loop-Holds}

-- The lexicographic order, a list before the longer ones that begin with it.
abbrev pub order : List ℕ → List ℕ → Sign
order [] [] = equal
order [] (y ∷ ys) = minus_one
order (x ∷ xs) [] = one
order (x ∷ xs) (y ∷ ys) =
    let rest = order xs ys in if ltb x y then minus_one else (if ltb y x then one else rest)

-- `strcmp` of two strings ends, given fuel above the length of one of them, and answers their
-- lexicographic order.
pub strcmp-order :
    (f : ℕ) (m : Bytes) (a b : ℕ) (xs ys : List ℕ)
    → Holds m a xs
    → Holds m b ys
    → length xs < f
    → strcmp f m a b ≡ done (order xs ys)
unfolding strcmp
strcmp-order zero m a b xs ys h k lt = absurd (omega (arith, lt))
strcmp-order (suc f) m a b [] [] h k lt = rw (h, k) refl
strcmp-order (suc f) m a b [] (y ∷ ys) h k lt =
    let low : ltb 0 y ≡ true = ground (arith, k.1) in
    let more : (y == 0) ≡ false = ground (arith, k.1) in rw (h, k.0, low, more) refl
strcmp-order (suc f) m a b (x ∷ xs) [] h k lt =
    let low : ltb 0 x ≡ true = ground (arith, h.1) in
    let high : ltb x 0 ≡ false = ground (arith, h.1) in
    let more : (x == 0) ≡ false = ground (arith, h.1) in rw (h.0, k, high, low, more) refl
strcmp-order (suc f) m a b (x ∷ xs) (y ∷ ys) h k lt =
    let rest = strcmp-order f m (a + 1) (b + 1) xs ys h.2 k.2 (omega (arith, lt)) in
    let more : (x == 0) ≡ false = ground (arith, h.1) in
    rw (h.0, k.0, more, rest)
      (elim (Bool-cases (ltb x y)) [
        | inl below ↦ rw below refl
        | inr not_below ↦ elim (Bool-cases (ltb y x)) [
          | inl above ↦ rw (not_below, above) refl
          | inr not_above ↦ rw (not_below, not_above) refl
        ]
      ])

-- The `count` bytes from `p` on.
abbrev pub bytes_from : Bytes → ℕ → ℕ → List ℕ
bytes_from m p zero = []
bytes_from m p (suc count) = m p ∷ bytes_from m (p + 1) count

-- `memcmp` answers the lexicographic order of the two blocks.
pub memcmp-order :
    (count : ℕ) (m : Bytes) (l r : ℕ)
    → memcmp count m l r ≡ order (bytes_from m l count) (bytes_from m r count)
unfolding memcmp
memcmp-order zero m l r = refl
memcmp-order (suc count) m l r =
    ap
      (λ (rest : Sign).
        if ltb (m l) (m r) then minus_one else (if ltb (m r) (m l) then one else rest))
      (memcmp-order count m (l + 1) (r + 1))

pub order_refl : (xs : List ℕ) → order xs xs ≡ equal
order_refl [] = refl
order_refl (x ∷ xs) = let no : ltb x x ≡ false = ground arith in rw no (order_refl xs)

-- Strings that compare as equal are the same.
pub order-equal : (xs ys : List ℕ) → order xs ys ≡ equal → xs ≡ ys
order-equal [] [] e = refl
order-equal [] (y ∷ ys) e = cc
order-equal (x ∷ xs) [] e = cc
order-equal (x ∷ xs) (y ∷ ys) e = elim (Bool-cases (ltb x y)) [
  | inl below ↦ let h : minus_one ≡ equal = rw below at e in cc
  | inr not_below ↦ elim (Bool-cases (ltb y x)) [
    | inl above ↦ let h : one ≡ equal = rw (not_below, above) at e in cc
    | inr not_above ↦
        let same : x ≡ y = ground (arith, not_below, not_above) in
        ap₂ (λ (z : ℕ) (zs : List ℕ). z ∷ zs) same
          (order-equal xs ys (rw (not_below, not_above) at e))
  ]
]

-- What the copy of a string is: equal to the original, with its length.
pub record IsCopy (f s s2 : ℕ) (xs : List ℕ) (r : Outcome Bytes) : Type 0 where
  pub memory : Bytes
  pub ends : r ≡ done memory
  pub same : strcmp f memory s s2 ≡ done equal
  pub length_same : strlen f memory s ≡ done (length xs)

-- `strcpy` of a string to a place apart from it ends, given fuel above its length, and after it the two
-- strings compare as equal and the copy has the length of the string.
pub strcpy-IsCopy :
    (f s s2 : ℕ) (m : Bytes) (xs : List ℕ)
    → Holds m s2 xs
    → (s + length xs < s2) ⊎ (s2 + length xs < s)
    → length xs < f
    → IsCopy f s s2 xs (strcpy f s s2 m)
strcpy-IsCopy f s s2 m xs h apart lt =
    let below : (s < s2) ⊎ (s2 + length xs < s) = elim apart [
      | inl le ↦ inl (omega (arith, le))
      | inr le ↦ inr le
    ] in
    let w = strcpy-Written f s s2 m xs h below lt in
    let kept : Holds w.memory s2 xs =
      Holds-agree m w.memory s2 xs
        (λ i less. w.others (s2 + i) (elim apart [
          | inl le ↦ inr (omega (arith, le))
          | inr le ↦ inl (omega (arith, le, less))
        ]))
        h in
    let none_more : 0 + length xs ≡ length xs = omega arith in
    record {
      memory = w.memory;
      ends = w.ends;
      same = strcmp-order f w.memory s s2 xs xs w.string kept lt ∙ ap done (order_refl xs);
      length_same = strlen_loop-Holds f w.memory s 0 xs w.string lt ∙ ap done none_more;
    }
