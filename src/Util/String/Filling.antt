-- ===== src/Util/String/Filling.antt =====
-- `memset` against a fill byte by byte.
use pentagon.Prelude.{
  ℕ, zero, suc, ◌+◌, ◌-◌, ◌*◌, ◌/◌, ◌%◌, ◌<◌, ◌≤◌, ◌≡◌, inl, inr, refl, sym, ap, subst, ◌∙◌,
  fun_ext, arith, not, ◌&&◌, leb, ◌==◌, update, length, Bool-cases,
}
use pentagon.Util.String.{
  Bytes, Fill, store_words, fill_aligned, pattern64, pattern32, pattern16, copies, fill_words,
  fill_if, fill_loop, fill_last, memset,
}
use pentagon.Util.String.Words.{
  byte_of, overwrite, overwrite-nil, overwrite-append, overwrite-agree, update-overwrite, WordsAre,
  store_words-overwrite,
}

-- The first `k` of the `n` bytes are filled.
record Filled (dest byte n : ℕ) (m : Bytes) (k : ℕ) (c : Fill) : Type 0 where
  memory : (a : ℕ) → c.memory a ≡ overwrite m dest k (λ j. byte) a
  cur_dest : c.cur_dest ≡ dest + k
  left : c.n + k ≡ n

-- A word of which each byte is `byte`.
abbrev Pattern : ℕ → ℕ → ℕ → Type 0
Pattern size w byte = (j : ℕ) → j < size → byte_of j w ≡ byte

Pattern-suc :
    (size w byte : ℕ) → byte < 256 → Pattern size w byte → Pattern (suc size) (byte + 256 * w) byte
unfolding byte_of
Pattern-suc size w byte lt p zero le = omega (arith, lt)
Pattern-suc size w byte lt p (suc j) le =
    let rest : (byte + 256 * w) / 256 ≡ w = omega (arith, lt) in
    ap (byte_of j) rest ∙ p j (omega (arith, le))

-- The byte, repeated.
abbrev repeated : ℕ → ℕ → ℕ
repeated zero byte = 0
repeated (suc size) byte = byte + 256 * repeated size byte

repeated-Pattern : (size byte : ℕ) → byte < 256 → Pattern size (repeated size byte) byte
repeated-Pattern zero byte lt = λ j le. absurd (omega (arith, le))
repeated-Pattern (suc size) byte lt =
    Pattern-suc size (repeated size byte) byte lt (repeated-Pattern size byte lt)

pattern64-Pattern : (byte : ℕ) → byte < 256 → Pattern 8 (pattern64 byte) byte
pattern64-Pattern byte lt =
    let same : repeated 8 byte ≡ pattern64 byte = omega arith in
    subst (λ w. Pattern 8 w byte) same (repeated-Pattern 8 byte lt)

pattern32-Pattern : (byte : ℕ) → byte < 256 → Pattern 4 (pattern32 byte) byte
pattern32-Pattern byte lt =
    let same : repeated 4 byte ≡ pattern32 byte = omega arith in
    subst (λ w. Pattern 4 w byte) same (repeated-Pattern 4 byte lt)

pattern16-Pattern : (byte : ℕ) → byte < 256 → Pattern 2 (pattern16 byte) byte
pattern16-Pattern byte lt =
    let same : repeated 2 byte ≡ pattern16 byte = omega arith in
    subst (λ w. Pattern 2 w byte) same (repeated-Pattern 2 byte lt)

block-Filled :
    (dest byte n : ℕ) (m : Bytes) (k b : ℕ) (c : Fill) (after : Bytes)
    → Filled dest byte n m k c
    → b ≤ c.n
    → ((a : ℕ) → after a ≡ overwrite c.memory c.cur_dest b (λ j. byte) a)
    → Filled dest byte n m
        (k + b)
        (record { memory = after; cur_dest = c.cur_dest + b; n = c.n - b })
block-Filled dest byte n m k b c after v le written = record {
  memory = λ a.
      written a
      ∙ ap (λ (d : ℕ). overwrite c.memory d b (λ j. byte) a) v.cur_dest
      ∙ overwrite-agree c.memory (overwrite m dest k (λ j. byte)) (dest + k) b (λ j. byte)
          (λ j. byte) a (v.memory a) (λ j lt. refl)
      ∙ overwrite-append m dest k b (λ j. byte) a;
  cur_dest = omega (arith, v.cur_dest);
  left = omega (arith, v.left, le);
}

copies-WordsAre :
    (count size w byte o : ℕ) → Pattern size w byte → WordsAre size (copies count w) (λ j. byte) o
copies-WordsAre zero size w byte o h = tt
copies-WordsAre (suc count) size w byte o h = (h, copies-WordsAre count size w byte (o + size) h)

copies-length : (count w : ℕ) → length (copies count w) ≡ count
copies-length zero w = refl
copies-length (suc count) w = ap suc (copies-length count w)

fill_words-Filled :
    (dest byte n : ℕ) (m : Bytes) (k count size w : ℕ) (c : Fill)
    → Pattern size w byte
    → Filled dest byte n m k c
    → count * size ≤ c.n
    → Filled dest byte n m (k + count * size) (fill_words count size w c)
fill_words-Filled dest byte n m k count size w c p v le =
    block-Filled dest byte n m k (count * size) c
      (store_words size c.cur_dest (copies count w) c.memory) v le
      (λ a.
        store_words-overwrite size c.cur_dest 0 (copies count w) (λ j. byte) c.memory a
          (copies-WordsAre count size w byte 0 p)
        ∙ ap (λ (l : ℕ). overwrite c.memory c.cur_dest (l * size) (λ j. byte) a)
            (copies-length count w))

abbrev FilledBelow : ℕ → ℕ → ℕ → Bytes → ℕ → Fill → Type 0
FilledBelow dest byte n m b c = (k : ℕ) × (Filled dest byte n m k c × (c.n < b))

fill_aligned-Filled :
    (dest byte n : ℕ) (m : Bytes) (k f : ℕ) (c : Fill)
    → Filled dest byte n m k c
    → (j : ℕ) × Filled dest byte n m j (fill_aligned byte f c)
unfolding fill_aligned
fill_aligned-Filled dest byte n m k zero c v = (k, v)
fill_aligned-Filled dest byte n m k (suc f) c v =
    elim (Bool-cases (not (c.n == 0) && not (c.cur_dest % 8 == 0))) [
      | inl odd ↦
          let one : 1 ≤ c.n = ground (arith, odd) in
          let after = update c.memory c.cur_dest byte in
          rw odd (
            fill_aligned-Filled dest byte n m (k + 1) f
              (record { memory = after; cur_dest = c.cur_dest + 1; n = c.n - 1 })
              (block-Filled dest byte n m k 1 c after v one
                (λ a. update-overwrite c.memory c.cur_dest byte (λ j. byte) a refl)))
      | inr even ↦ rw even (k, v)
    ]

fill_loop-Filled :
    (dest byte n : ℕ) (m : Bytes) (k f w : ℕ) (c : Fill)
    → Pattern 8 w byte
    → Filled dest byte n m k c
    → c.n ≤ f
    → FilledBelow dest byte n m 64 (fill_loop w f c)
unfolding fill_loop
fill_loop-Filled dest byte n m k zero w c p v le = (k, (v, omega (arith, le)))
fill_loop-Filled dest byte n m k (suc f) w c p v le = elim (Bool-cases (leb (8 * 8) c.n)) [
  | inl full ↦ rw full (
      fill_loop-Filled dest byte n m (k + 64) f w (fill_words 8 8 w c) p
        (fill_words-Filled dest byte n m k 8 8 w c p v (ground (arith, full)))
        (ground (arith, le, full)))
  | inr short ↦ rw short (k, (v, ground (arith, short)))
]

fill_if-Filled :
    (dest byte n : ℕ) (m : Bytes) (count size w : ℕ) (c : Fill)
    → Pattern size w byte
    → FilledBelow dest byte n m (count * size + count * size) c
    → FilledBelow dest byte n m (count * size) (fill_if count size w c)
unfolding fill_if
fill_if-Filled dest byte n m count size w c p (k, (v, lt)) =
    elim (Bool-cases (leb (count * size) c.n)) [
      | inl full ↦
          let le : count * size ≤ c.n = ground (arith, full) in
          rw full (
            k + count * size,
            (fill_words-Filled dest byte n m k count size w c p v le, omega (arith, lt, le)),
          )
      | inr short ↦ rw short (k, (v, ground (arith, short)))
    ]

fill_last-Filled :
    (dest byte n : ℕ) (m : Bytes) (c : Fill) (a : ℕ)
    → FilledBelow dest byte n m 2 c
    → fill_last byte c a ≡ overwrite m dest n (λ j. byte) a
unfolding fill_last
fill_last-Filled dest byte n m c a (k, (v, lt)) = elim (Bool-cases (c.n == 0)) [
  | inl none_left ↦
      let all : k ≡ n = ground (arith, v.left, none_left) in
      rw none_left (v.memory a ∙ ap (λ (l : ℕ). overwrite m dest l (λ j. byte) a) all)
  | inr one_left ↦
      let after = update c.memory c.cur_dest byte in
      let one : 1 ≤ c.n = ground (arith, one_left) in
      let last =
        block-Filled dest byte n m k 1 c after v one
          (λ x. update-overwrite c.memory c.cur_dest byte (λ j. byte) x refl) in
      let all : k + 1 ≡ n = omega (arith, v.left, one, lt) in
      rw one_left (last.memory a ∙ ap (λ (l : ℕ). overwrite m dest l (λ j. byte) a) all)
]

-- For every address, alignment, value and length, `memset` is the fill byte by byte with the low byte
-- of the value.
pub memset-overwrite :
    (dest val n : ℕ) (m : Bytes) → memset dest val n m ≡ overwrite m dest n (λ j. val % 256)
unfolding memset
memset-overwrite dest val n m = fun_ext (λ a.
    let byte = val % 256 in
    let small : byte < 256 = omega arith in
    let p8 = pattern64-Pattern byte small in
    let p4 = pattern32-Pattern byte small in
    let p2 = pattern16-Pattern byte small in
    let v0 : Filled dest byte n m 0 (record { memory = m; cur_dest = dest; n = n }) = record {
      memory = λ x. sym (overwrite-nil m dest (λ j. byte) x);
      cur_dest = omega arith;
      left = omega arith;
    } in
    let aligned =
      fill_aligned-Filled dest byte n m 0 n (record { memory = m; cur_dest = dest; n = n }) v0 in
    let c0 = fill_aligned byte n (record { memory = m; cur_dest = dest; n = n }) in
    let c1 = fill_loop (pattern64 byte) n c0 in
    let c2 = fill_if 4 8 (pattern64 byte) c1 in
    let c3 = fill_if 2 8 (pattern64 byte) c2 in
    let c4 = fill_if 1 8 (pattern64 byte) c3 in
    let c5 = fill_if 1 4 (pattern32 byte) c4 in
    let left = aligned.1.left in
    let b64 =
      fill_loop-Filled dest byte n m aligned.0 n (pattern64 byte) c0 p8 aligned.1
        (omega (arith, left)) in
    let b32 = fill_if-Filled dest byte n m 4 8 (pattern64 byte) c1 p8 b64 in
    let b16 = fill_if-Filled dest byte n m 2 8 (pattern64 byte) c2 p8 b32 in
    let b8 = fill_if-Filled dest byte n m 1 8 (pattern64 byte) c3 p8 b16 in
    let b4 = fill_if-Filled dest byte n m 1 4 (pattern32 byte) c4 p4 b8 in
    let b2 = fill_if-Filled dest byte n m 1 2 (pattern16 byte) c5 p2 b4 in
    fill_last-Filled dest byte n m (fill_if 1 2 (pattern16 byte) c5) a b2)
