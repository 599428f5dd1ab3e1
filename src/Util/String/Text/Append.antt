-- ===== src/Util/String/Text/Append.antt =====
-- `strcat`.
use pentagon.Prelude.{
  ℕ, zero, suc, ◌+◌, ◌<◌, ◌≡◌, ◌⊎◌, inl, inr, ap, subst, ◌∙◌, arith, false, List, [], ◌∷◌, ◌++◌,
  ◌==◌, update, Outcome, done, length,
}
use pentagon.Util.String.{Bytes}
use pentagon.Util.String.Text.{append_loop, strcat}
use pentagon.Util.String.Text.Length.{
  Holds, Holds-update, strlen_loop-Holds, Written, Written-suc, Written-nil,
}

append_loop-Written :
    (f s s2 : ℕ) (m : Bytes) (xs : List ℕ)
    → Holds m s2 xs
    → (s < s2) ⊎ (s2 + length xs < s)
    → length xs < f
    → Written s xs m (append_loop f s s2 m)
unfolding append_loop
append_loop-Written zero s s2 m xs h apart lt = absurd (omega (arith, lt))
append_loop-Written (suc f) s s2 m [] h apart lt = rw h (Written-nil s m)
append_loop-Written (suc f) s s2 m (x ∷ xs) h apart lt =
    let more : (m s2 == 0) ≡ false = ground (arith, h.0, h.1) in
    let apart' : (s < s2 + 1) ⊎ ((s2 + 1) + length xs < s) = elim apart [
      | inl le ↦ inl (omega (arith, le))
      | inr le ↦ inr (omega (arith, le))
    ] in
    let apart'' : (s + 1 < s2 + 1) ⊎ ((s2 + 1) + length xs < s + 1) = elim apart [
      | inl le ↦ inl (omega (arith, le))
      | inr le ↦ inr (omega (arith, le))
    ] in
    let below =
      append_loop-Written f (s + 1) (s2 + 1) (update m s x) xs
        (Holds-update m s (s2 + 1) x xs apart' h.2) apart'' (omega (arith, lt)) in
    rw more (
      Written-suc s x xs m (append_loop f (s + 1) (s2 + 1) (update m s (m s2)))
        (append_loop f (s + 1) (s2 + 1) (update m s x)) h.1
        (ap (λ b. append_loop f (s + 1) (s2 + 1) (update m s b)) h.0) below)

Holds-append :
    (m m' : Bytes) (p : ℕ) (xs ys : List ℕ)
    → Holds m p xs
    → ((a : ℕ) → a < p + length xs → m' a ≡ m a)
    → Holds m' (p + length xs) ys
    → Holds m' p (xs ++ ys)
Holds-append m m' p [] ys h same k =
    let place : p + 0 ≡ p = omega arith in subst (λ q. Holds m' q ys) place k
Holds-append m m' p (x ∷ xs) ys h same k =
    let place : p + suc (length xs) ≡ (p + 1) + length xs = omega arith in
    (
      same p (omega arith) ∙ h.0,
      h.1,
      Holds-append m m' (p + 1) xs ys h.2 (λ a lt. same a (omega (arith, lt)))
          (subst (λ q. Holds m' q ys) place k),
    )

-- A string is appended: its bytes and the zero are written behind those of the first one, and nothing
-- else changed.
pub record Appended (s : ℕ) (xs ys : List ℕ) (m : Bytes) (r : Outcome Bytes) : Type 0 where
  pub memory : Bytes
  pub ends : r ≡ done memory
  pub string : Holds memory s (xs ++ ys)
  pub others : (a : ℕ) → (a < s + length xs) ⊎ (s + length xs + length ys < a) → memory a ≡ m a

-- `strcat` of two strings, of which the second does not overlap the zero of the first and what is
-- written from there on upwards, ends with the two strings one behind the other at the destination,
-- given fuel above both lengths; nothing but the bytes from the first zero on is written.
pub strcat-Appended :
    (f s s2 : ℕ) (m : Bytes) (xs ys : List ℕ)
    → Holds m s xs
    → Holds m s2 ys
    → (s + length xs < s2) ⊎ (s2 + length ys < s + length xs)
    → length xs < f
    → length ys < f
    → Appended s xs ys m (strcat f s s2 m)
unfolding strcat
strcat-Appended f s s2 m xs ys hx hy apart lt lt' =
    let w = append_loop-Written f (s + length xs) s2 m ys hy apart lt' in
    let found = strlen_loop-Holds f m s 0 xs hx lt in
    let place : s + (0 + length xs) ≡ s + length xs = omega arith in
    record {
      memory = w.memory;
      ends = rw (found, place) w.ends;
      string = Holds-append m w.memory s xs ys hx (λ a low. w.others a (inl low)) w.string;
      others = w.others;
    }
