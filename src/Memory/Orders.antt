-- ===== src/Memory/Orders.antt =====
-- What a write leaves for later reads, and how the two byte orders are related.
use projet_s.Common.{
  zero, suc, ℕ, ◌+◌, ◌-◌, ◌*◌, ◌%◌, ◌^◌, ◌≤◌, ◌<◌, ◌≡◌, ◌⊎◌, not, arith, if◌then◌else◌,
}
use projet_s.Outcome.{ok}
use projet_s.Word.{Host}
use projet_s.Util.{reverse_2, reverse_4}
use projet_s.Util.Reverse.{reverse_2-half_of_bytes, reverse_4-word_of_bytes}
use projet_s.Memory.{Memory, read_byte, read_half, read_word, write_half, write_word}
use projet_s.Memory.Words.{
  byte, IsBytes, half_at, word_at, set_half, set_word, set_word-IsBytes, set_half-IsBytes,
  word_at-set_word_self, word_at-set_word_ne, half_at-set_half_self, size-set_word, size-set_half,
}
use projet_s.Memory.Access.{read_half_lem, read_word_lem, write_half_lem, write_word_lem}

-- `mem'` holds the word `v` at `a`, and every word apart from it as in `mem`.
pub record WordStored (host : Host) (mem : Memory) (a v : ℕ) (mem' : Memory) : Type 0 where
  pub accepted : write_word host mem a v ≡ ok (0, mem')
  pub stored : (old : ℕ) → read_word host mem' a old ≡ ok (0, v)
  pub bytes : IsBytes mem'
  pub elsewhere :
      (b old : ℕ)
      → b + 3 < 2 ^ 32
      → (a + 4 ≤ b) ⊎ (b + 4 ≤ a)
      → read_word host mem' b old ≡ read_word host mem b old

-- In a memory of bytes, a word written at an aligned address inside it is accepted, is read back
-- from there, and changes no word apart from it.
pub write_word-WordStored :
    (host : Host) (mem : Memory) (a v : ℕ)
    → IsBytes mem
    → a % 4 ≡ 0
    → a + 3 < mem.size
    → a < 2 ^ 32
    → v < 2 ^ 32
    → (mem' : Memory) × WordStored host mem a v mem'
write_word-WordStored host mem a v bytes aligned inside fits word = (
  set_word mem a v,
  record {
    accepted = ground (arith, write_word_lem host mem a v fits);
    stored = λ old. ground (
      arith,
      read_word_lem host (set_word mem a v) a old (set_word-IsBytes mem a v bytes) (omega arith),
      size-set_word mem a v,
      word_at-set_word_self mem a v word,
    );
    bytes = set_word-IsBytes mem a v bytes;
    elsewhere = λ b old low apart. ground (
      arith,
      read_word_lem host (set_word mem a v) b old (set_word-IsBytes mem a v bytes) low,
      read_word_lem host mem b old bytes low,
      size-set_word mem a v,
      word_at-set_word_ne mem a b v apart,
    );
  },
)

-- In a memory of bytes, a half word written at an even address inside it is accepted and read back.
pub write_half-read_half :
    (host : Host) (mem : Memory) (a v old : ℕ)
    → IsBytes mem
    → a % 2 ≡ 0
    → a + 1 < mem.size
    → a < 2 ^ 32
    → v < 2 ^ 16
    → (mem' : Memory) × (write_half host mem a v ≡ ok (0, mem'))
      × (read_half host mem' a old ≡ ok (0, v))
write_half-read_half host mem a v old bytes aligned inside fits half = (
  set_half mem a v,
  ground (arith, write_half_lem host mem a v fits),
  ground (
    arith,
    read_half_lem host (set_half mem a v) a old (set_half-IsBytes mem a v bytes) (omega arith),
    size-set_half mem a v,
    half_at-set_half_self mem a v half,
  ),
)

-- The place of byte i of a word, as the exponent of its weight.
abbrev pub byte_place : Memory → ℕ → ℕ
byte_place mem i = 8 * (if mem.is_big_endian then 3 - i else i)

m-set_word :
    (mem : Memory) (a v i : ℕ) → i < 4 → (set_word mem a v).m (a + i) ≡ byte v (byte_place mem i)
unfolding set_word
m-set_word mem a v zero h = ground arith
m-set_word mem a v (suc zero) h = ground arith
m-set_word mem a v (suc (suc zero)) h = ground arith
m-set_word mem a v (suc (suc (suc zero))) h = ground arith
m-set_word mem a v (suc (suc (suc (suc i)))) h = absurd (omega arith)

-- After a word has been written at an aligned address inside the memory, each of its four bytes is
-- read at the place that the byte order gives it.
pub write_word-read_byte :
    (host : Host) (mem : Memory) (a v i old : ℕ)
    → a % 4 ≡ 0
    → a + 3 < mem.size
    → a < 2 ^ 32
    → i < 4
    → (mem' : Memory) × (write_word host mem a v ≡ ok (0, mem'))
      × (read_byte mem' (a + i) old ≡ ok (0, byte v (byte_place mem i)))
unfolding read_byte
write_word-read_byte host mem a v i old aligned inside fits small = (
  set_word mem a v,
  ground (arith, write_word_lem host mem a v fits),
  ground (arith, m-set_word mem a v i small, size-set_word mem a v),
)

abbrev pub other_order : Memory → Memory
other_order mem = record mem { is_big_endian = not mem.is_big_endian }

-- If a memory of bytes gives a word, the same bytes in the other byte order give it turned round.
pub read_word-other_order :
    (host : Host) (mem : Memory) (a v old : ℕ)
    → IsBytes mem
    → a + 3 < 2 ^ 32
    → read_word host mem a old ≡ ok (0, v)
    → read_word host (other_order mem) a old ≡ ok (0, reverse_4 host v)
unfolding word_at
read_word-other_order host mem a v old bytes fits done = ground (
  arith,
  read_word_lem host mem a old bytes fits,
  read_word_lem host (other_order mem) a old bytes fits,
  reverse_4-word_of_bytes host (word_at mem a),
  bytes a,
  bytes (a + 1),
  bytes (a + 2),
  bytes (a + 3),
)

-- The same for a half word.
pub read_half-other_order :
    (host : Host) (mem : Memory) (a v old : ℕ)
    → IsBytes mem
    → a + 1 < 2 ^ 32
    → read_half host mem a old ≡ ok (0, v)
    → read_half host (other_order mem) a old ≡ ok (0, reverse_2 host v)
unfolding half_at
read_half-other_order host mem a v old bytes fits done = ground (
  arith,
  read_half_lem host mem a old bytes fits,
  read_half_lem host (other_order mem) a old bytes fits,
  reverse_2-half_of_bytes host (half_at mem a),
  bytes a,
  bytes (a + 1),
)
