-- ===== src/Util/String.antt =====
-- kernel/util/string.c: `memcpy`, `memset` and `memmove`. Memory is its bytes by address; a range that
-- the code is given does not wrap around the end of the address space.
pub mod Words
pub mod Copying
pub mod Moving
pub mod Filling
pub mod Number
pub mod Text
mod Tests
use pentagon.Prelude.{
  ℕ, zero, suc, ◌+◌, ◌-◌, ◌*◌, ◌/◌, ◌%◌, ◌^◌, Bool, true, false, not, ◌&&◌, List, [], ◌∷◌, ltb, leb,
  ◌==◌, if◌then◌else◌, update,
}

abbrev pub Bytes : Type 0
Bytes = ℕ → ℕ

-- `alias_load` and `alias_store` of a word of `size` bytes, the low one first.
unfoldable pub alias_load : ℕ → ℕ → Bytes → ℕ
alias_load zero p m = 0
alias_load (suc size) p m = m p + 256 * alias_load size (p + 1) m

unfoldable pub alias_store : ℕ → ℕ → ℕ → Bytes → Bytes
alias_store zero p value m = m
alias_store (suc size) p value m = alias_store size (p + 1) (value / 256) (update m p (value % 256))

-- Words loaded one behind the other, and stored so.
unfoldable pub load_words : ℕ → ℕ → ℕ → Bytes → List ℕ
load_words zero size p m = []
load_words (suc count) size p m = alias_load size p m ∷ load_words count size (p + size) m

unfoldable pub store_words : ℕ → ℕ → List ℕ → Bytes → Bytes
store_words size p [] m = m
store_words size p (w ∷ ws) m = store_words size (p + size) ws (alias_store size p w m)

-- The variables of `memcpy`.
pub record Copy : Type 0 where
  pub memory : Bytes
  pub cur_dest : ℕ
  pub cur_src : ℕ
  pub n : ℕ

-- `count` words are loaded, and then stored.
abbrev pub copy_words : ℕ → ℕ → Copy → Copy
copy_words count size c =
    let ws = load_words count size c.cur_src c.memory in
    record {
      memory = store_words size c.cur_dest ws c.memory;
      cur_dest = c.cur_dest + count * size;
      cur_src = c.cur_src + count * size;
      n = c.n - count * size;
    }

unfoldable pub copy_if : ℕ → ℕ → Copy → Copy
copy_if count size c =
    let copied = copy_words count size c in if leb (count * size) c.n then copied else c

-- The first loop; each round takes 64 bytes off `n`, so `n` rounds are enough.
unfoldable pub copy_loop : ℕ → Copy → Copy
copy_loop zero c = c
copy_loop (suc f) c =
    let rest = copy_loop f (copy_words 8 8 c) in if leb (8 * 8) c.n then rest else c

unfoldable pub copy_last : Copy → Bytes
copy_last c = if c.n == 0 then c.memory else update c.memory c.cur_dest (c.memory c.cur_src)

unfoldable pub memcpy : ℕ → ℕ → ℕ → Bytes → Bytes
memcpy dest src n m =
    let c0 : Copy = record { memory = m; cur_dest = dest; cur_src = src; n = n } in
    let c1 = copy_if 4 8 (copy_loop n c0) in
    let c2 = copy_if 1 8 (copy_if 2 8 c1) in copy_last (copy_if 1 2 (copy_if 1 4 c2))

-- The variables of `memset`.
pub record Fill : Type 0 where
  pub memory : Bytes
  pub cur_dest : ℕ
  pub n : ℕ

-- The first loop, up to an address that is a multiple of 8.
unfoldable pub fill_aligned : ℕ → ℕ → Fill → Fill
fill_aligned byte zero c = c
fill_aligned byte (suc f) c =
    let rest = fill_aligned byte f (record {
      memory = update c.memory c.cur_dest byte;
      cur_dest = c.cur_dest + 1;
      n = c.n - 1;
    }) in
    if not (c.n == 0) && not (c.cur_dest % 8 == 0) then rest else c

-- The patterns: the shifted bytes do not overlap, so that `|` is a sum.
abbrev pub pattern64 : ℕ → ℕ
pattern64 byte =
    byte
    + byte * 2 ^ 8
    + byte * 2 ^ 16
    + byte * 2 ^ 24
    + byte * 2 ^ 32
    + byte * 2 ^ 40
    + byte * 2 ^ 48
    + byte * 2 ^ 56

abbrev pub pattern32 : ℕ → ℕ
pattern32 byte = byte + byte * 2 ^ 8 + byte * 2 ^ 16 + byte * 2 ^ 24

abbrev pub pattern16 : ℕ → ℕ
pattern16 byte = byte + byte * 2 ^ 8

abbrev pub copies : ℕ → ℕ → List ℕ
copies zero w = []
copies (suc count) w = w ∷ copies count w

abbrev pub fill_words : ℕ → ℕ → ℕ → Fill → Fill
fill_words count size w c = record {
  memory = store_words size c.cur_dest (copies count w) c.memory;
  cur_dest = c.cur_dest + count * size;
  n = c.n - count * size;
}

unfoldable pub fill_if : ℕ → ℕ → ℕ → Fill → Fill
fill_if count size w c =
    let filled = fill_words count size w c in if leb (count * size) c.n then filled else c

unfoldable pub fill_loop : ℕ → ℕ → Fill → Fill
fill_loop w zero c = c
fill_loop w (suc f) c =
    let rest = fill_loop w f (fill_words 8 8 w c) in if leb (8 * 8) c.n then rest else c

unfoldable pub fill_last : ℕ → Fill → Bytes
fill_last byte c = if c.n == 0 then c.memory else update c.memory c.cur_dest byte

unfoldable pub memset : ℕ → ℕ → ℕ → Bytes → Bytes
memset dest val n m =
    let byte = val % 256 in
    let c0 : Fill = record { memory = m; cur_dest = dest; n = n } in
    let c1 = fill_loop (pattern64 byte) n (fill_aligned byte n c0) in
    let c2 = fill_if 2 8 (pattern64 byte) (fill_if 4 8 (pattern64 byte) c1) in
    let c3 = fill_if 1 4 (pattern32 byte) (fill_if 1 8 (pattern64 byte) c2) in
    fill_last byte (fill_if 1 2 (pattern16 byte) c3)

-- The loop of `memmove` from the last byte down.
unfoldable pub move_down : ℕ → ℕ → ℕ → Bytes → Bytes
move_down zero lastd lasts m = m
move_down (suc len) lastd lasts m = move_down len (lastd - 1) (lasts - 1) (update m lastd (m lasts))

unfoldable pub memmove : ℕ → ℕ → ℕ → Bytes → Bytes
memmove d s len m =
    if ltb d s then memcpy d s len m else move_down len (d + (len - 1)) (s + (len - 1)) m
