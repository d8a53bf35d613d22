-- ===== src/Memory/Words.antt =====
-- The specification: memory as an array of bytes, and of the half words and words in them.
use projet_s.Common.{ℕ, ◌+◌, ◌/◌, ◌%◌, ◌^◌, ◌≤◌, ◌<◌, ◌≡◌, ◌⊎◌, arith, if◌then◌else◌}
use projet_s.Word.Bytes.{half_of_bytes, word_of_bytes}
use projet_s.Memory.{Memory, update}

-- Every cell holds a byte.
abbrev pub IsBytes : Memory → Type 0
IsBytes mem = (i : ℕ) → mem.m i < 2 ^ 8

unfoldable pub half_at : Memory → ℕ → ℕ
half_at mem a =
    if mem.is_big_endian
    then half_of_bytes (mem.m a) (mem.m (a + 1))
    else half_of_bytes (mem.m (a + 1)) (mem.m a)

unfoldable pub word_at : Memory → ℕ → ℕ
word_at mem a =
    if mem.is_big_endian
    then word_of_bytes (mem.m a) (mem.m (a + 1)) (mem.m (a + 2)) (mem.m (a + 3))
    else word_of_bytes (mem.m (a + 3)) (mem.m (a + 2)) (mem.m (a + 1)) (mem.m a)

-- The memory with the four bytes from `a` on replaced.
abbrev set_bytes : Memory → ℕ → ℕ → ℕ → ℕ → ℕ → Memory
set_bytes mem a b0 b1 b2 b3 = record mem {
  m = update (update (update (update mem.m a b0) (a + 1) b1) (a + 2) b2) (a + 3) b3;
}

-- The byte of weight 2 ^ k.
abbrev pub byte : ℕ → ℕ → ℕ
byte v k = v / 2 ^ k % 2 ^ 8

unfoldable pub set_byte : Memory → ℕ → ℕ → Memory
set_byte mem a v = record mem { m = update mem.m a (v % 2 ^ 8) }

unfoldable pub set_half : Memory → ℕ → ℕ → Memory
set_half mem a v =
    if mem.is_big_endian
    then record mem { m = update (update mem.m a (byte v 8)) (a + 1) (v % 2 ^ 8) }
    else record mem { m = update (update mem.m a (v % 2 ^ 8)) (a + 1) (byte v 8) }

unfoldable pub set_word : Memory → ℕ → ℕ → Memory
set_word mem a v =
    if mem.is_big_endian
    then set_bytes mem a (byte v 24) (byte v 16) (byte v 8) (v % 2 ^ 8)
    else set_bytes mem a (v % 2 ^ 8) (byte v 8) (byte v 16) (byte v 24)

pub word_at-lt : (mem : Memory) (a : ℕ) → IsBytes mem → word_at mem a < 2 ^ 32
unfolding word_at
word_at-lt mem a h = ground (arith, h a, h (a + 1), h (a + 2), h (a + 3))

pub half_at-lt : (mem : Memory) (a : ℕ) → IsBytes mem → half_at mem a < 2 ^ 16
unfolding half_at
half_at-lt mem a h = ground (arith, h a, h (a + 1))

pub set_word-IsBytes : (mem : Memory) (a v : ℕ) → IsBytes mem → IsBytes (set_word mem a v)
unfolding set_word
set_word-IsBytes mem a v h i = ground (arith, h i)

pub set_half-IsBytes : (mem : Memory) (a v : ℕ) → IsBytes mem → IsBytes (set_half mem a v)
unfolding set_half
set_half-IsBytes mem a v h i = ground (arith, h i)

pub set_byte-IsBytes : (mem : Memory) (a v : ℕ) → IsBytes mem → IsBytes (set_byte mem a v)
unfolding set_byte
set_byte-IsBytes mem a v h i = ground (arith, h i)

-- A word that was stored is read back.
pub word_at-set_word_self : (mem : Memory) (a v : ℕ) → v < 2 ^ 32 → word_at (set_word mem a v) a ≡ v
unfolding word_at set_word
word_at-set_word_self mem a v h = ground arith

-- It leaves every word apart from it alone.
pub word_at-set_word_ne :
    (mem : Memory) (a b v : ℕ)
    → (a + 4 ≤ b) ⊎ (b + 4 ≤ a)
    → word_at (set_word mem a v) b ≡ word_at mem b
unfolding word_at set_word
word_at-set_word_ne mem a b v apart = ground arith

pub half_at-set_half_self : (mem : Memory) (a v : ℕ) → v < 2 ^ 16 → half_at (set_half mem a v) a ≡ v
unfolding half_at set_half
half_at-set_half_self mem a v h = ground arith

pub size-set_word : (mem : Memory) (a v : ℕ) → (set_word mem a v).size ≡ mem.size
unfolding set_word
size-set_word mem a v = ground arith

pub size-set_half : (mem : Memory) (a v : ℕ) → (set_half mem a v).size ≡ mem.size
unfolding set_half
size-set_half mem a v = ground arith
