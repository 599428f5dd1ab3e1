-- ===== src/Util/String/Text/Length.antt =====
-- Strings as lists of bytes: `strlen`, `strcpy` and `strcat`.
use pentagon.Prelude.{
  ℕ, zero, suc, ◌+◌, ◌<◌, ◌≡◌, ◌≢◌, ◌⊎◌, inl, inr, refl, sym, ap, ◌∙◌, arith, false, List, [], ◌∷◌,
  ◌==◌, update, update_self, update-ne, Outcome, done, length,
}
use pentagon.Util.String.{Bytes}
use pentagon.Util.String.Text.{strlen_loop, strcpy}

-- The string at `p`, with the zero behind it.
abbrev pub Holds : Bytes → ℕ → List ℕ → Type 0
Holds m p [] = m p ≡ 0
Holds m p (x ∷ xs) = (m p ≡ x) × (x ≢ 0) × Holds m (p + 1) xs

pub strlen_loop-Holds :
    (f : ℕ) (m : Bytes) (p n : ℕ) (xs : List ℕ)
    → Holds m p xs
    → length xs < f
    → strlen_loop f m p n ≡ done (n + length xs)
unfolding strlen_loop
strlen_loop-Holds zero m p n xs h lt = absurd (omega (arith, lt))
strlen_loop-Holds (suc f) m p n [] h lt = let same : n ≡ n + 0 = omega arith in rw h (ap done same)
strlen_loop-Holds (suc f) m p n (x ∷ xs) h lt =
    let more : (m p == 0) ≡ false = ground (arith, h.0, h.1) in
    let place : (n + 1) + length xs ≡ n + suc (length xs) = omega arith in
    rw more (strlen_loop-Holds f m (p + 1) (n + 1) xs h.2 (omega (arith, lt)) ∙ ap done place)

-- A string stays where its bytes stay.
pub Holds-agree :
    (m m' : Bytes) (p : ℕ) (xs : List ℕ)
    → ((i : ℕ) → i < suc (length xs) → m' (p + i) ≡ m (p + i))
    → Holds m p xs
    → Holds m' p xs
Holds-agree m m' p [] same h =
    let place : p + 0 ≡ p = omega arith in sym (ap m' place) ∙ same 0 (omega arith) ∙ ap m place ∙ h
Holds-agree m m' p (x ∷ xs) same h =
    let place : p + 0 ≡ p = omega arith in
    (
      sym (ap m' place) ∙ same 0 (omega arith) ∙ ap m place ∙ h.0,
      h.1,
      Holds-agree m m' (p + 1) xs
          (λ i lt.
            let next : (p + 1) + i ≡ p + suc i = omega arith in
            ap m' next ∙ same (suc i) (omega (arith, lt)) ∙ sym (ap m next))
          h.2,
    )

-- A string is written at `s`: it is there, and only its bytes and the zero changed.
pub record Written (s : ℕ) (xs : List ℕ) (m : Bytes) (r : Outcome Bytes) : Type 0 where
  pub memory : Bytes
  pub ends : r ≡ done memory
  pub string : Holds memory s xs
  pub others : (a : ℕ) → (a < s) ⊎ (s + length xs < a) → memory a ≡ m a

pub Written-suc :
    (s x : ℕ) (xs : List ℕ) (m : Bytes) (r r' : Outcome Bytes)
    → x ≢ 0
    → r ≡ r'
    → Written (s + 1) xs (update m s x) r'
    → Written s (x ∷ xs) m r
Written-suc s x xs m r r' ne e w = record {
  memory = w.memory;
  ends = e ∙ w.ends;
  string = (w.others s (inl (omega arith)) ∙ update_self m s x, ne, w.string);
  others = λ a out. elim out [
    | inl lt ↦ w.others a (inl (omega (arith, lt))) ∙ update-ne m s a x (omega (arith, lt))
    | inr gt ↦ w.others a (inr (omega (arith, gt))) ∙ update-ne m s a x (omega (arith, gt))
  ];
}

pub Written-nil : (s : ℕ) (m : Bytes) → Written s [] m (done (update m s 0))
Written-nil s m = record {
  memory = update m s 0;
  ends = refl;
  string = update_self m s 0;
  others = λ a out. elim out [
    | inl lt ↦ update-ne m s a 0 (omega (arith, lt))
    | inr gt ↦ update-ne m s a 0 (omega (arith, gt))
  ];
}

-- The rest of the source after a byte was written below it or behind it.
pub Holds-update :
    (m : Bytes) (s p x : ℕ) (xs : List ℕ)
    → (s < p) ⊎ (p + length xs < s)
    → Holds m p xs
    → Holds (update m s x) p xs
Holds-update m s p x xs apart h =
    Holds-agree m (update m s x) p xs
      (λ i lt.
        update-ne m s (p + i) x
          (elim apart [ inl le ↦ omega (arith, le) | inr le ↦ omega (arith, le, lt) ]))
      h

-- `strcpy` of a string to a place that is below it or behind it, with its zero, writes it there.
pub strcpy-Written :
    (f s s2 : ℕ) (m : Bytes) (xs : List ℕ)
    → Holds m s2 xs
    → (s < s2) ⊎ (s2 + length xs < s)
    → length xs < f
    → Written s xs m (strcpy f s s2 m)
unfolding strcpy
strcpy-Written zero s s2 m xs h apart lt = absurd (omega (arith, lt))
strcpy-Written (suc f) s s2 m [] h apart lt = rw h (Written-nil s m)
strcpy-Written (suc f) s s2 m (x ∷ xs) h apart lt =
    let more : (m s2 == 0) ≡ false = ground (arith, h.0, h.1) in
    let apart' : (s < s2 + 1) ⊎ ((s2 + 1) + length xs < s) = elim apart [
      | inl le ↦ inl (omega (arith, le))
      | inr le ↦ inr (omega (arith, le))
    ] in
    let apart'' : (s + 1 < s2 + 1) ⊎ ((s2 + 1) + length xs < s + 1) = elim apart [
      | inl le ↦ inl (omega (arith, le))
      | inr le ↦ inr (omega (arith, le))
    ] in
    let below =
      strcpy-Written f (s + 1) (s2 + 1) (update m s x) xs
        (Holds-update m s (s2 + 1) x xs apart' h.2) apart'' (omega (arith, lt)) in
    rw more (
      Written-suc s x xs m (strcpy f (s + 1) (s2 + 1) (update m s (m s2)))
        (strcpy f (s + 1) (s2 + 1) (update m s x)) h.1
        (ap (λ b. strcpy f (s + 1) (s2 + 1) (update m s b)) h.0) below)
