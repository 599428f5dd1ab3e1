-- ===== src/Util/String/Copying.antt =====
-- `memcpy` against a copy byte by byte.
use pentagon.Prelude.{
  ℕ, zero, suc, ◌+◌, ◌-◌, ◌*◌, ◌<◌, ◌≤◌, ◌≡◌, ◌⊎◌, inl, inr, refl, sym, ap, subst, ◌∙◌, fun_ext,
  arith, leb, ◌==◌, update, length, Bool-cases,
}
use pentagon.Util.String.{
  Bytes, Copy, load_words, store_words, copy_words, copy_if, copy_loop, copy_last, memcpy,
}
use pentagon.Util.String.Words.{
  overwrite, overwrite-append, overwrite-nil, overwrite-agree, WordsAre, store_words-overwrite,
  load_words-WordsAre, load_words-length, update-overwrite,
}

-- Bytes, of which a copy upwards overwrites none before it has read it.
pub record CopyRange (dest src n : ℕ) (m : Bytes) : Type 0 where
  pub small : (a : ℕ) → m a < 256
  pub clear : (dest ≤ src) ⊎ (src + n ≤ dest)

-- The first `k` of the `n` bytes are copied.
record Copied (dest src n : ℕ) (m : Bytes) (k : ℕ) (c : Copy) : Type 0 where
  memory : (a : ℕ) → c.memory a ≡ overwrite m dest k (λ j. m (src + j)) a
  cur_dest : c.cur_dest ≡ dest + k
  cur_src : c.cur_src ≡ src + k
  left : c.n + k ≡ n

-- What is still to be copied is as it was.
Copied-source :
    (dest src n : ℕ) (m : Bytes) (k : ℕ) (c : Copy)
    → CopyRange dest src n m
    → Copied dest src n m k c
    → (j : ℕ) → j < c.n
    → c.memory (c.cur_src + j) ≡ m (src + (k + j))
Copied-source dest src n m k c h v j lt =
    let place : c.cur_src + j ≡ src + (k + j) = omega (arith, v.cur_src) in
    ap c.memory place ∙ v.memory (src + (k + j)) ∙ outside h.clear
  where
    outside :
        (dest ≤ src) ⊎ (src + n ≤ dest)
        → overwrite m dest k (λ j. m (src + j)) (src + (k + j)) ≡ m (src + (k + j))
    outside (inl le) = ground (arith, le)
    outside (inr le) = ground (arith, le, v.left, lt)

overwrite-small :
    (m : Bytes) (p n : ℕ) (g : ℕ → ℕ) (a : ℕ)
    → ((a : ℕ) → m a < 256)
    → ((j : ℕ) → g j < 256)
    → overwrite m p n g a < 256
overwrite-small m p n g a h k = ground (arith, h a, k (a - p))

-- A block that is read at once and then written.
block-Copied :
    (dest src n : ℕ) (m : Bytes) (k b : ℕ) (c : Copy) (after : Bytes)
    → CopyRange dest src n m
    → Copied dest src n m k c
    → b ≤ c.n
    → ((a : ℕ) → after a ≡ overwrite c.memory c.cur_dest b (λ j. c.memory (c.cur_src + j)) a)
    → Copied dest src n m
        (k + b)
        (record { memory = after; cur_dest = c.cur_dest + b; cur_src = c.cur_src + b; n = c.n - b })
block-Copied dest src n m k b c after h v le written =
    let G = λ (j : ℕ). m (src + j) in
    record {
      memory = λ a.
          let here = v.cur_dest in
          written a
          ∙ ap (λ (d : ℕ). overwrite c.memory d b (λ j. c.memory (c.cur_src + j)) a) v.cur_dest
          ∙ overwrite-agree c.memory (overwrite m dest k G) (dest + k) b
              (λ j. c.memory (c.cur_src + j)) (λ j. G (k + j)) a (v.memory a)
              (λ j lt. Copied-source dest src n m k c h v j (omega (arith, lt, le)))
          ∙ overwrite-append m dest k b G a;
      cur_dest = omega (arith, v.cur_dest);
      cur_src = omega (arith, v.cur_src);
      left = omega (arith, v.left, le);
    }

copy_words-Copied :
    (dest src n : ℕ) (m : Bytes) (k count size : ℕ) (c : Copy)
    → CopyRange dest src n m
    → Copied dest src n m k c
    → count * size ≤ c.n
    → Copied dest src n m (k + count * size) (copy_words count size c)
copy_words-Copied dest src n m k count size c h v le =
    let ws = load_words count size c.cur_src c.memory in
    let small = λ (a : ℕ).
      subst (λ (b : ℕ). b < 256) (sym (v.memory a))
        (overwrite-small m dest k (λ j. m (src + j)) a h.small (λ j. h.small (src + j))) in
    let start : c.cur_src + 0 ≡ c.cur_src = omega arith in
    let loaded : WordsAre size ws (λ j. c.memory (c.cur_src + j)) 0 =
      subst
        (λ p. WordsAre size (load_words count size p c.memory) (λ j. c.memory (c.cur_src + j)) 0)
        start (load_words-WordsAre count size c.cur_src 0 c.memory small) in
    block-Copied dest src n m k (count * size) c (store_words size c.cur_dest ws c.memory) h v le
      (λ a.
        store_words-overwrite size c.cur_dest 0 ws (λ j. c.memory (c.cur_src + j)) c.memory a loaded
        ∙ overwrite-agree c.memory c.memory c.cur_dest (length ws * size)
            (λ j. c.memory (c.cur_src + (0 + j))) (λ j. c.memory (c.cur_src + j)) a refl
            (λ j lt. let same : 0 + j ≡ j = omega arith in ap (λ i. c.memory (c.cur_src + i)) same)
        ∙ ap (λ (l : ℕ). overwrite c.memory c.cur_dest (l * size) (λ j. c.memory (c.cur_src + j)) a)
            (load_words-length count size c.cur_src c.memory))

-- Some bytes are copied, and fewer than `b` are left.
abbrev CopiedBelow : ℕ → ℕ → ℕ → Bytes → ℕ → Copy → Type 0
CopiedBelow dest src n m b c = (k : ℕ) × (Copied dest src n m k c × (c.n < b))

copy_loop-Copied :
    (dest src n : ℕ) (m : Bytes) (k f : ℕ) (c : Copy)
    → CopyRange dest src n m
    → Copied dest src n m k c
    → c.n ≤ f
    → CopiedBelow dest src n m 64 (copy_loop f c)
unfolding copy_loop
copy_loop-Copied dest src n m k zero c h v le = (k, (v, omega (arith, le)))
copy_loop-Copied dest src n m k (suc f) c h v le = elim (Bool-cases (leb (8 * 8) c.n)) [
  | inl full ↦ rw full (
      copy_loop-Copied dest src n m (k + 64) f (copy_words 8 8 c) h
        (copy_words-Copied dest src n m k 8 8 c h v (ground (arith, full)))
        (ground (arith, le, full)))
  | inr short ↦ rw short (k, (v, ground (arith, short)))
]

copy_if-Copied :
    (dest src n : ℕ) (m : Bytes) (count size : ℕ) (c : Copy)
    → CopyRange dest src n m
    → CopiedBelow dest src n m (count * size + count * size) c
    → CopiedBelow dest src n m (count * size) (copy_if count size c)
unfolding copy_if
copy_if-Copied dest src n m count size c h (k, (v, lt)) =
    elim (Bool-cases (leb (count * size) c.n)) [
      | inl full ↦
          let le : count * size ≤ c.n = ground (arith, full) in
          rw full (
            k + count * size,
            (copy_words-Copied dest src n m k count size c h v le, omega (arith, lt, le)),
          )
      | inr short ↦ rw short (k, (v, ground (arith, short)))
    ]

copy_last-Copied :
    (dest src n : ℕ) (m : Bytes) (c : Copy) (a : ℕ)
    → CopyRange dest src n m
    → CopiedBelow dest src n m 2 c
    → copy_last c a ≡ overwrite m dest n (λ j. m (src + j)) a
unfolding copy_last
copy_last-Copied dest src n m c a h (k, (v, lt)) = elim (Bool-cases (c.n == 0)) [
  | inl none_left ↦
      let all : k ≡ n = ground (arith, v.left, none_left) in
      rw none_left (v.memory a ∙ ap (λ (l : ℕ). overwrite m dest l (λ j. m (src + j)) a) all)
  | inr one_left ↦
      let after = update c.memory c.cur_dest (c.memory c.cur_src) in
      let one : 1 ≤ c.n = ground (arith, one_left) in
      let start : c.cur_src + 0 ≡ c.cur_src = omega arith in
      let last = block-Copied dest src n m k 1 c after h v one (λ x.
        update-overwrite c.memory c.cur_dest (c.memory c.cur_src) (λ j. c.memory (c.cur_src + j)) x
          (ap c.memory start)) in
      let all : k + 1 ≡ n = omega (arith, v.left, one, lt) in
      rw one_left (last.memory a ∙ ap (λ (l : ℕ). overwrite m dest l (λ j. m (src + j)) a) all)
]

-- On memory of bytes, `memcpy` of `n` bytes to a place that is not above the source, or that begins
-- behind it, is the copy byte by byte: byte `j` of the destination is what byte `j` of the source was,
-- and nothing else changes.
pub memcpy-overwrite :
    (dest src n : ℕ) (m : Bytes)
    → CopyRange dest src n m
    → memcpy dest src n m ≡ overwrite m dest n (λ j. m (src + j))
unfolding memcpy
memcpy-overwrite dest src n m h = fun_ext (λ a.
    let c0 : Copy = record { memory = m; cur_dest = dest; cur_src = src; n = n } in
    let v0 : Copied dest src n m 0 c0 = record {
      memory = λ x. sym (overwrite-nil m dest (λ j. m (src + j)) x);
      cur_dest = omega arith;
      cur_src = omega arith;
      left = omega arith;
    } in
    let b64 = copy_loop-Copied dest src n m 0 n c0 h v0 (omega arith) in
    let c1 = copy_loop n c0 in
    let c2 = copy_if 4 8 c1 in
    let c3 = copy_if 2 8 c2 in
    let c4 = copy_if 1 8 c3 in
    let c5 = copy_if 1 4 c4 in
    let b32 = copy_if-Copied dest src n m 4 8 c1 h b64 in
    let b16 = copy_if-Copied dest src n m 2 8 c2 h b32 in
    let b8 = copy_if-Copied dest src n m 1 8 c3 h b16 in
    let b4 = copy_if-Copied dest src n m 1 4 c4 h b8 in
    let b2 = copy_if-Copied dest src n m 1 2 c5 h b4 in
    copy_last-Copied dest src n m (copy_if 1 2 c5) a h b2)
