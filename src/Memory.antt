-- ===== src/Memory.antt =====
-- memory.c: a byte array with word and half-word accesses in either byte order.
-- A read returns the status and what `*value` holds afterwards; a write the status and the memory.
pub mod Words
pub mod Access
pub mod Orders
pub mod Whole
use projet_s.Common.{
  ℕ, ◌+◌, ◌%◌, ◌^◌, Bool, true, false, not, bit_or, ltb, leb, ◌==◌, nonzero, if◌then◌else◌,
}
use projet_s.Constants.{data_abort}
use projet_s.Outcome.{Outcome, ok, fault, ◌>>=◌}
use projet_s.Word.{Host, u8, add32, shl, shr}

-- `m` is the content of the array, of which `size` bytes are allocated.
pub record Memory : Type 0 where
  pub m : ℕ → ℕ
  pub size : ℕ
  pub is_big_endian : Bool

-- `contents` is what `malloc` finds.
unfoldable pub create : (ℕ → ℕ) → ℕ → ℕ → Memory
create contents size is_big_endian = record {
  m = contents;
  size = size;
  is_big_endian = nonzero is_big_endian;
}

unfoldable pub get_size : Memory → ℕ
get_size mem = mem.size

unfoldable pub is_not_valid_address : Memory → ℕ → Bool
unfolding get_size
is_not_valid_address mem address = leb (get_size mem) address

abbrev pub update : (ℕ → ℕ) → ℕ → ℕ → ℕ → ℕ
update f i v j = if i == j then v else f j

-- mem->m[i] as a value, and as the target of an assignment.
unfoldable pub load : Memory → ℕ → Outcome ℕ
load mem i = if ltb i mem.size then ok (mem.m i) else fault

unfoldable pub store : Memory → ℕ → ℕ → Outcome Memory
store mem i v = if ltb i mem.size then ok (record mem { m = update mem.m i (u8 v) }) else fault

module _ (mem : Memory) (address : ℕ) where
  unfoldable pub read_byte : ℕ → Outcome (ℕ × ℕ)
  unfolding is_not_valid_address load
  read_byte value =
      if is_not_valid_address mem address
      then ok (data_abort, value)
      else do byte ← load mem address; ok (0, byte)

  unfoldable pub write_byte : ℕ → Outcome (ℕ × Memory)
  unfolding is_not_valid_address store
  write_byte value =
      if is_not_valid_address mem address
      then ok (data_abort, mem)
      else do mem ← store mem address value; ok (0, mem)

module _ (host : Host) (mem : Memory) (address : ℕ) where
  unfoldable pub read_half : ℕ → Outcome (ℕ × ℕ)
  unfolding is_not_valid_address load
  read_half value =
      if is_not_valid_address mem address
      then ok (data_abort, value)
      else if mem.is_big_endian
      then (do
        hi ← load mem address
        lo ← load mem (add32 address 1)
        ok (0, bit_or (shl host hi 8) lo))
      else do
        hi ← load mem (add32 address 1)
        lo ← load mem address
        ok (0, bit_or (shl host hi 8) lo)

  unfoldable pub read_word : ℕ → Outcome (ℕ × ℕ)
  unfolding is_not_valid_address load
  read_word value =
      if is_not_valid_address mem address
      then ok (data_abort, value)
      else if mem.is_big_endian
      then (do
        a ← load mem address
        b ← load mem (add32 address 1)
        c ← load mem (add32 address 2)
        d ← load mem (add32 address 3)
        ok (0, bit_or (bit_or (bit_or (shl host a 24) (shl host b 16)) (shl host c 8)) d))
      else do
        a ← load mem (add32 address 3)
        b ← load mem (add32 address 2)
        c ← load mem (add32 address 1)
        d ← load mem address
        ok (0, bit_or (bit_or (bit_or (shl host a 24) (shl host b 16)) (shl host c 8)) d)

  unfoldable pub write_half : ℕ → Outcome (ℕ × Memory)
  unfolding is_not_valid_address store
  write_half value =
      if is_not_valid_address mem address
      then ok (data_abort, mem)
      else if nonzero (address % 2)
      then ok (data_abort, mem)
      else if mem.is_big_endian
      then (do
        mem ← store mem address (shr host value 8)
        mem ← store mem (add32 address 1) value
        ok (0, mem))
      else do
        mem ← store mem address value
        mem ← store mem (add32 address 1) (shr host value 8)
        ok (0, mem)

  unfoldable pub write_word : ℕ → Outcome (ℕ × Memory)
  unfolding is_not_valid_address store
  write_word value =
      if is_not_valid_address mem address
      then ok (data_abort, mem)
      else if nonzero (address % 4)
      then ok (data_abort, mem)
      else if mem.is_big_endian
      then (do
        mem ← store mem address (shr host value 24)
        mem ← store mem (add32 address 1) (shr host value 16)
        mem ← store mem (add32 address 2) (shr host value 8)
        mem ← store mem (add32 address 3) value
        ok (0, mem))
      else do
        mem ← store mem address value
        mem ← store mem (add32 address 1) (shr host value 8)
        mem ← store mem (add32 address 2) (shr host value 16)
        mem ← store mem (add32 address 3) (shr host value 24)
        ok (0, mem)
