-- ===== src/Util/String/Tests.antt =====
-- The block operations at concrete values.
use pentagon.Prelude.{
  ℕ, suc, ◌+◌, ◌%◌, ◌≡◌, refl, arith, inl, inr, true, [], ◌∷◌, ◌==◌, if◌then◌else◌, done, length,
}
use pentagon.Util.String.Number.{strtoul, isspace, digit_of, isdigit, isalpha, isupper}
use pentagon.Util.String.Number.Digits.{numeral}
use pentagon.Util.String.Number.Parsed.{answer, strtoul-Digits}
use pentagon.Util.String.Text.{strcpy}
use pentagon.Util.String.Text.Compare.{IsCopy, strcpy-IsCopy}
use pentagon.Util.String.{Bytes, memcpy, memset, memmove}
use pentagon.Util.String.Words.{overwrite}
use pentagon.Util.String.Copying.{memcpy-overwrite}
use pentagon.Util.String.Filling.{memset-overwrite}
use pentagon.Util.String.Moving.{memmove-overwrite}

abbrev ramp : Bytes
ramp a = a % 256

memcpy-overwrite_example : memcpy 500 100 107 ramp ≡ overwrite ramp 500 107 (λ j. ramp (100 + j))
memcpy-overwrite_example =
    memcpy-overwrite 500 100 107 ramp
      (record { small = λ a. omega arith; clear = inr (omega arith) })

memset-overwrite_example : memset 1003 511 300 ramp ≡ overwrite ramp 1003 300 (λ j. 511 % 256)
memset-overwrite_example = memset-overwrite 1003 511 300 ramp

-- The ranges overlap.
memmove-overwrite_example : memmove 110 100 64 ramp ≡ overwrite ramp 110 64 (λ j. ramp (100 + j))
memmove-overwrite_example = memmove-overwrite 110 100 64 ramp (λ a. omega arith)

-- " -12;" stands at 0, "ab" at 16.
abbrev text : Bytes
text a =
    if a == 0
    then 32
    else (if a == 1
        then 45
        else (if a == 2
            then 49
            else (if a == 3
                then 50
                else (if a == 4
                    then 59
                    else (if a == 16 then 97 else (if a == 17 then 98 else 0))))))

strtoul-Digits_example :
    strtoul 3 text 0 10
    ≡ done (answer true (numeral 10 0 (1 ∷ 2 ∷ [])), 2 + suc (length {A = ℕ} (2 ∷ [])))
unfolding isspace digit_of isdigit isalpha isupper
strtoul-Digits_example =
    strtoul-Digits 3 1 text 0 10 2 true 1 (2 ∷ []) (omega arith) (omega arith) (refl, refl)
      (inl (refl, refl, refl)) (refl, omega arith, (refl, omega arith, inl refl)) (omega arith)
      (omega arith)

strcpy-IsCopy_example : IsCopy 3 32 16 (97 ∷ 98 ∷ []) (strcpy 3 32 16 text)
strcpy-IsCopy_example =
    strcpy-IsCopy 3 32 16 text (97 ∷ 98 ∷ []) (refl, omega arith, (refl, omega arith, refl))
      (inr (omega arith)) (omega arith)
