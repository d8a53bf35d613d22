-- ===== src/MemoryTest.antt =====
-- memory_test.c, the test program of memory.c: what it prints for each of its eight tests. The text
-- around the results is left out.
pub mod Compare
use projet_s.Common.{
  ℕ, zero, suc, ◌+◌, ◌-◌, ◌*◌, ◌/◌, ◌%◌, ◌^◌, Bool, true, false, ◌==◌, if◌then◌else◌, List, [], ◌∷◌,
}
use projet_s.Outcome.{Outcome, ok, ◌>>=◌}
use projet_s.Word.{Host, u8, u16, add32, all_ones}
use projet_s.Util.{is_big_endian}
use projet_s.Memory
use projet_s.Memory.{Memory}

-- The bytes of a word and of a half word of the host, from the lowest address on.
unfoldable pub word_bytes : Host → ℕ → ℕ → ℕ
word_bytes host v i =
    if host.big_endian then v / 2 ^ (8 * (3 - i)) % 2 ^ 8 else v / 2 ^ (8 * i) % 2 ^ 8

unfoldable pub half_bytes : Host → ℕ → ℕ → ℕ
half_bytes host v i =
    if host.big_endian then v / 2 ^ (8 * (1 - i)) % 2 ^ 8 else v / 2 ^ (8 * i) % 2 ^ 8

-- The first `j`, and its step, -1 as a word; `reverse` is a condition.
abbrev first_and_step : ℕ → Bool → ℕ × ℕ
first_and_step size reverse = if reverse then (size - 1, all_ones) else (0, 1)

-- The loop of `compare`, for the rounds that are left.
unfoldable pub compare_bytes : (ℕ → ℕ) → (ℕ → ℕ) → ℕ → ℕ → ℕ → ℕ → Bool
compare_bytes a b zero i j j_step = true
compare_bytes a b (suc n) i j j_step =
    let rest = compare_bytes a b n (i + 1) (add32 j j_step) j_step in
    if a i == b j then rest else false

unfoldable pub compare : (ℕ → ℕ) → (ℕ → ℕ) → ℕ → Bool → Bool
unfolding compare_bytes
compare a b size reverse =
    let (j, j_step) = first_and_step size reverse in compare_bytes a b size 0 j j_step

-- The loop of `compare_with_sim`; `value` keeps its value when a read aborts.
unfoldable pub compare_sim : (ℕ → ℕ) → Memory → ℕ → ℕ → ℕ → ℕ → ℕ → Outcome Bool
compare_sim a m zero i j j_step value = ok true
compare_sim a m (suc n) i j j_step value = do
  (_, value) ← Memory.read_byte m j value
  if a i == value then compare_sim a m n (i + 1) (add32 j j_step) j_step value else ok false

unfoldable pub compare_with_sim : Host → (ℕ → ℕ) → Memory → ℕ → Bool → Outcome Bool
unfolding compare_sim
compare_with_sim host a m size reverse =
    let (j, j_step) = first_and_step size reverse in
    compare_sim a m size 0 j j_step (u8 host.indeterminate)

-- The first loop of `main`, which writes the bytes of the word to both memories.
unfoldable pub write_bytes : (ℕ → ℕ) → ℕ → ℕ → Memory → Memory → Outcome (Memory × Memory)
write_bytes position zero i m0 m1 = ok (m0, m1)
write_bytes position (suc n) i m0 m1 = do
  (_, m0) ← Memory.write_byte m0 i (position i)
  (_, m1) ← Memory.write_byte m1 i (position i)
  write_bytes position n (i + 1) m0 m1

abbrev word_value : ℕ
word_value = 0x11223344

abbrev half_value : ℕ
half_value = 0x5566

-- The memories with the byte order of the host, m[is_big_endian()], and with the other one.
abbrev by_order : Host → Memory → Memory → Memory × Memory
by_order host m0 m1 = if is_big_endian host == 1 then (m1, m0) else (m0, m1)

-- The results of the reads from a memory, in order or reversed.
unfoldable pub read_tests : Host → Memory → Bool → Outcome (Bool × Bool)
unfolding compare word_bytes half_bytes
read_tests host m reverse = do
  (_, word_read) ← Memory.read_word host m 0 host.indeterminate
  (_, half_read) ← Memory.read_half host m 0 (u16 host.indeterminate)
  ok (
    compare (word_bytes host word_value) (word_bytes host word_read) 4 reverse,
    compare (word_bytes host word_value) (half_bytes host half_read) 2 reverse,
  )

-- The results of the writes to a memory.
unfoldable pub write_tests : Host → Memory → Bool → Outcome (Bool × Bool)
unfolding compare_with_sim word_bytes half_bytes
write_tests host m reverse = do
  (_, m) ← Memory.write_word host m 0 word_value
  word_same ← compare_with_sim host (word_bytes host word_value) m 4 reverse
  (_, m) ← Memory.write_half host m 0 half_value
  half_same ← compare_with_sim host (half_bytes host half_value) m 2 reverse
  ok (word_same, half_same)

-- `little` and `big` are what `malloc` finds for the two memories.
unfoldable pub main : Host → (ℕ → ℕ) → (ℕ → ℕ) → Outcome (List Bool)
unfolding write_bytes read_tests write_tests is_big_endian
main host little big = do
  (m0, m1) ←
      write_bytes (word_bytes host word_value) 4 0 (Memory.create little 4 0)
        (Memory.create big 4 1)
  let (same, different) = by_order host m0 m1
  (a, b) ← read_tests host same false
  (c, d) ← read_tests host different true
  (e, f) ← write_tests host same false
  (g, h) ← write_tests host different true
  ok (a ∷ b ∷ c ∷ d ∷ e ∷ f ∷ g ∷ h ∷ [])
