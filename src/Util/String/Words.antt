-- ===== src/Util/String/Words.antt =====
-- Words of memory, byte by byte.
use pentagon.Prelude.{
  ℕ, zero, suc, ◌+◌, ◌-◌, ◌*◌, ◌/◌, ◌%◌, ◌<◌, ◌≡◌, refl, sym, ap, ◌∙◌, arith, ◌&&◌, List, [], ◌∷◌,
  ltb, leb, if◌then◌else◌, update, length, Bool-cases, inl, inr,
}
use native.Mathlib.Nat.{zero-mul, suc-mul}
use native.Mathlib.Decide.{ℕ_discrete}
use pentagon.Util.String.{Bytes, alias_load, alias_store, load_words, store_words}

-- Byte `j` of a word.
unfoldable pub byte_of : ℕ → ℕ → ℕ
byte_of zero w = w % 256
byte_of (suc j) w = byte_of j (w / 256)

-- Memory with the `n` bytes from `p` on replaced.
abbrev pub overwrite : Bytes → ℕ → ℕ → (ℕ → ℕ) → Bytes
overwrite m p n g a = if leb p a && ltb a (p + n) then g (a - p) else m a

pub overwrite-nil : (m : Bytes) (p : ℕ) (g : ℕ → ℕ) (a : ℕ) → overwrite m p 0 g a ≡ m a
overwrite-nil m p g a = ground arith

-- Two replacements, one behind the other, are one.
pub overwrite-append :
    (m : Bytes) (p n k : ℕ) (g : ℕ → ℕ) (a : ℕ)
    → overwrite (overwrite m p n g) (p + n) k (λ j. g (n + j)) a ≡ overwrite m p (n + k) g a
overwrite-append m p n k g a = ground arith

pub alias_store-overwrite :
    (size p w : ℕ) (m : Bytes) (a : ℕ)
    → alias_store size p w m a ≡ overwrite m p size (λ j. byte_of j w) a
unfolding alias_store byte_of
alias_store-overwrite zero p w m a = ground arith
alias_store-overwrite (suc size) p w m a = elim (ℕ_discrete a p) [
  | yes here ↦
      let start : a - p ≡ 0 = omega (arith, here) in
      let first : byte_of (a - p) w ≡ w % 256 = ap (λ j. byte_of j w) start in
      alias_store-overwrite size (p + 1) (w / 256) (update m p (w % 256)) a
      ∙ ground (arith, here, first)
  | no ne ↦ elim (Bool-cases (ltb p a)) [
    | inl gt ↦
        let shift : a - p ≡ suc (a - (p + 1)) = ground (arith, gt) in
        let next : byte_of (a - p) w ≡ byte_of (a - (p + 1)) (w / 256) =
          ap (λ j. byte_of j w) shift in
        alias_store-overwrite size (p + 1) (w / 256) (update m p (w % 256)) a
        ∙ ground (arith, ne, gt, next)
    | inr le ↦
        alias_store-overwrite size (p + 1) (w / 256) (update m p (w % 256)) a
        ∙ ground (arith, ne, le)
  ]
]

pub byte_of-alias_load :
    (size p j : ℕ) (m : Bytes)
    → ((a : ℕ) → m a < 256)
    → j < size
    → byte_of j (alias_load size p m) ≡ m (p + j)
unfolding byte_of alias_load
byte_of-alias_load zero p j m small lt = absurd (omega (arith, lt))
byte_of-alias_load (suc size) p zero m small lt =
    let here : m (p + 0) ≡ m p = ap m (omega arith) in omega (arith, here, small p)
byte_of-alias_load (suc size) p (suc j) m small lt =
    let rest : (m p + 256 * alias_load size (p + 1) m) / 256 ≡ alias_load size (p + 1) m =
      omega (arith, small p) in
    let place : (p + 1) + j ≡ p + suc j = omega arith in
    ap (byte_of j) rest ∙ byte_of-alias_load size (p + 1) j m small (omega (arith, lt)) ∙ ap m place

-- Each byte of the word is the one of `g` from `o` on.
abbrev pub WordIs : ℕ → ℕ → (ℕ → ℕ) → ℕ → Type 0
WordIs size w g o = (j : ℕ) → j < size → byte_of j w ≡ g (o + j)

abbrev pub WordsAre : ℕ → List ℕ → (ℕ → ℕ) → ℕ → Type 0
WordsAre size [] g o = Unit
WordsAre size (w ∷ ws) g o = WordIs size w g o × WordsAre size ws g (o + size)

pub overwrite-agree :
    (m m' : Bytes) (p n : ℕ) (g g' : ℕ → ℕ) (a : ℕ)
    → m a ≡ m' a
    → ((j : ℕ) → j < n → g j ≡ g' j)
    → overwrite m p n g a ≡ overwrite m' p n g' a
overwrite-agree m m' p n g g' a e h = elim (Bool-cases (leb p a && ltb a (p + n))) [
  | inl inside ↦ rw inside (h (a - p) (ground (arith, inside)))
  | inr outside ↦ rw outside e
]

-- Stored words that are the bytes of `g` replace the memory by them.
pub store_words-overwrite :
    (size p o : ℕ) (ws : List ℕ) (g : ℕ → ℕ) (m : Bytes) (a : ℕ)
    → WordsAre size ws g o
    → store_words size p ws m a ≡ overwrite m p (length ws * size) (λ j. g (o + j)) a
unfolding store_words
store_words-overwrite size p o [] g m a h =
    rw (zero-mul size) (sym (overwrite-nil m p (λ j. g (o + j)) a))
store_words-overwrite size p o (w ∷ ws) g m a h =
    let m1 = alias_store size p w m in
    let G = λ (j : ℕ). g (o + j) in
    let count = length ws * size in
    let first : m1 a ≡ overwrite m p size G a =
      alias_store-overwrite size p w m a
      ∙ overwrite-agree m m p size (λ j. byte_of j w) G a refl h.0 in
    let rest = store_words-overwrite size (p + size) (o + size) ws g m1 a h.1 in
    let joined =
      overwrite-agree m1 (overwrite m p size G) (p + size) count (λ j. g ((o + size) + j))
        (λ j. G (size + j)) a first
        (λ j lt. let same : (o + size) + j ≡ o + (size + j) = omega arith in ap g same) in
    let width : suc (length ws) * size ≡ size + count = omega (arith, suc-mul (length ws) size) in
    rw width (rest ∙ joined ∙ overwrite-append m p size count G a)

pub load_words-WordsAre :
    (count size src o : ℕ) (m : Bytes)
    → ((a : ℕ) → m a < 256)
    → WordsAre size (load_words count size (src + o) m) (λ j. m (src + j)) o
unfolding load_words
load_words-WordsAre zero size src o m small = tt
load_words-WordsAre (suc count) size src o m small =
    let place : (src + o) + size ≡ src + (o + size) = omega arith in
    (
      λ j lt.
          let here : (src + o) + j ≡ src + (o + j) = omega arith in
          byte_of-alias_load size (src + o) j m small lt ∙ ap m here,
      rw place (load_words-WordsAre count size src (o + size) m small),
    )

pub load_words-length : (count size p : ℕ) (m : Bytes) → length (load_words count size p m) ≡ count
unfolding load_words
load_words-length zero size p m = refl
load_words-length (suc count) size p m = ap suc (load_words-length count size (p + size) m)

-- One byte written.
pub update-overwrite :
    (m : Bytes) (p x : ℕ) (g : ℕ → ℕ) (a : ℕ) → g 0 ≡ x → update m p x a ≡ overwrite m p 1 g a
update-overwrite m p x g a e = elim (ℕ_discrete a p) [
  | yes here ↦
      let start : a - p ≡ 0 = omega (arith, here) in
      let first : g (a - p) ≡ x = ap g start ∙ e in ground (arith, here, first)
  | no ne ↦ ground (arith, ne)
]
