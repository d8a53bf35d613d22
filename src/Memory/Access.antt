-- ===== src/Memory/Access.antt =====
-- Every outcome of the accesses of memory.c, against the words of `Memory.Words`.
use projet_s.Common.{
  Bool-cases, inl, inr, ◌||◌, ℕ, ◌+◌, ◌%◌, ◌^◌, ◌<◌, ◌≡◌, arith, ltb, leb, nonzero, if◌then◌else◌,
}
use projet_s.Constants.{data_abort}
use projet_s.Outcome.{ok, fault}
use projet_s.Word.{Host, add32}
use projet_s.Word.Shift.{shr-eq-div}
use projet_s.Word.Bytes.{join_half, join_word}
use projet_s.Memory.{Memory, read_half, read_word, write_half, write_word}
use projet_s.Memory.Words.{IsBytes, half_at, word_at, set_half, set_word}

-- In a memory of bytes a half-word read at an address beyond the size aborts and leaves `*value`
-- alone, at the last byte it runs past the array, and elsewhere it gives the half word there.
pub read_half_lem :
    (host : Host) (mem : Memory) (a value : ℕ)
    → IsBytes mem
    → a + 1 < 2 ^ 32
    → read_half host mem a value ≡ (
        if leb mem.size a
        then ok (data_abort, value)
        else if ltb (a + 1) mem.size
        then ok (0, half_at mem a)
        else fault)
unfolding read_half half_at
read_half_lem host mem a value bytes fits = rw next (
    ground (
      arith,
      join_half host (mem.m a) (mem.m (a + 1)) (bytes _) (bytes _),
      join_half host (mem.m (a + 1)) (mem.m a) (bytes _) (bytes _),
    ))
  where
    next : add32 a 1 ≡ a + 1
    next = omega arith

-- In a memory of bytes a word read at an address beyond the size aborts and leaves `*value` alone,
-- at the last three bytes it runs past the array, and elsewhere it gives the word there.
pub read_word_lem :
    (host : Host) (mem : Memory) (a value : ℕ)
    → IsBytes mem
    → a + 3 < 2 ^ 32
    → read_word host mem a value ≡ (
        if leb mem.size a
        then ok (data_abort, value)
        else if ltb (a + 3) mem.size
        then ok (0, word_at mem a)
        else fault)
unfolding read_word word_at
read_word_lem host mem a value bytes fits =
    rw (next, next2, next3)
      (ground (
        arith,
        join_word host (mem.m a) (mem.m (a + 1)) (mem.m (a + 2)) (mem.m (a + 3)) (bytes _) (bytes _)
            (bytes _) (bytes _),
        join_word host (mem.m (a + 3)) (mem.m (a + 2)) (mem.m (a + 1)) (mem.m a) (bytes _) (bytes _)
            (bytes _) (bytes _),
      ))
  where
    next : add32 a 1 ≡ a + 1
    next = omega arith

    next2 : add32 a 2 ≡ a + 2
    next2 = omega arith

    next3 : add32 a 3 ≡ a + 3
    next3 = omega arith

-- A half-word write at an address beyond the size or at an odd address aborts and changes nothing,
-- at the last byte it runs past the array, and elsewhere it sets the half word there.
pub write_half_lem :
    (host : Host) (mem : Memory) (a value : ℕ)
    → a < 2 ^ 32
    → write_half host mem a value ≡ (
        if leb mem.size a || nonzero (a % 2)
        then ok (data_abort, mem)
        else if ltb (a + 1) mem.size
        then ok (0, set_half mem a value)
        else fault)
unfolding write_half set_half
write_half_lem host mem a value fits = elim (Bool-cases (nonzero (a % 2))) [
  | inl odd ↦ rw odd (ground arith)
  | inr even ↦
      let next : add32 a 1 ≡ a + 1 = ground arith in
      rw (next, shr-eq-div host value 8 (omega arith)) (ground arith)
]

-- A word write at an address beyond the size or at one that 4 does not divide aborts and changes
-- nothing, at the last three bytes it runs past the array, and elsewhere it sets the word there.
pub write_word_lem :
    (host : Host) (mem : Memory) (a value : ℕ)
    → a < 2 ^ 32
    → write_word host mem a value ≡ (
        if leb mem.size a || nonzero (a % 4)
        then ok (data_abort, mem)
        else if ltb (a + 3) mem.size
        then ok (0, set_word mem a value)
        else fault)
unfolding write_word set_word
write_word_lem host mem a value fits = elim (Bool-cases (nonzero (a % 4))) [
  | inl odd ↦ rw odd (ground arith)
  | inr even ↦
      let next : add32 a 1 ≡ a + 1 = ground arith in
      let next2 : add32 a 2 ≡ a + 2 = ground arith in
      let next3 : add32 a 3 ≡ a + 3 = ground arith in
      rw
        (
          next,
          next2,
          next3,
          shr-eq-div host value 8 (omega arith),
          shr-eq-div host value 16 (omega arith),
          shr-eq-div host value 24 (omega arith),
        )
        (ground arith)
]
