-- ===== src/Memory/Whole.antt =====
-- Accesses to a memory whose size 4 divides: where they stay inside the array.
use projet_s.Common.{ℕ, ◌%◌, ◌^◌, ◌<◌, ◌≡◌, arith, ◌∙◌, ◌||◌, leb, nonzero, if◌then◌else◌}
use projet_s.Outcome.{Outcome, ok}
use projet_s.Word.{Host, u8}
use projet_s.Constants.{data_abort}
use projet_s.Memory
use projet_s.Memory.{Memory, update}
use projet_s.Memory.Words.{IsBytes, half_at, word_at, set_half, set_word}
use projet_s.Memory.Access.{read_half_lem, read_word_lem, write_half_lem, write_word_lem}

abbrev pub Succeeds {ℓ} : {A : Type ℓ} → Outcome A → Type ℓ
Succeeds {A} run = (r : A) × (run ≡ ok r)

module _ (host : Host) (mem : Memory) (bytes : IsBytes mem) (whole : mem.size % 4 ≡ 0)
    (a value : ℕ) where
  pub read_byte-ok : Succeeds (Memory.read_byte mem a value)
  unfolding Memory.read_byte
  read_byte-ok = (if leb mem.size a then (data_abort, value) else (0, mem.m a), ground arith)

  pub write_byte-ok : Succeeds (Memory.write_byte mem a value)
  unfolding Memory.write_byte
  write_byte-ok = (
    if leb mem.size a then (data_abort, mem) else (0, record mem { m = update mem.m a (u8 value) }),
    ground arith,
  )

  module _ (fits : a < 2 ^ 32) where
    pub read_half-ok : a % 2 ≡ 0 → Succeeds (Memory.read_half host mem a value)
    read_half-ok even = (
      if leb mem.size a then (data_abort, value) else (0, half_at mem a),
      read_half_lem host mem a value bytes (omega arith) ∙ ground (arith, even, whole),
    )

    pub read_word-ok : a % 4 ≡ 0 → Succeeds (Memory.read_word host mem a value)
    read_word-ok even = (
      if leb mem.size a then (data_abort, value) else (0, word_at mem a),
      read_word_lem host mem a value bytes (omega arith) ∙ ground (arith, even, whole),
    )

    pub write_half-ok : Succeeds (Memory.write_half host mem a value)
    write_half-ok = (
      if leb mem.size a || nonzero (a % 2) then (data_abort, mem) else (0, set_half mem a value),
      write_half_lem host mem a value fits ∙ ground (arith, whole),
    )

    pub write_word-ok : Succeeds (Memory.write_word host mem a value)
    write_word-ok = (
      if leb mem.size a || nonzero (a % 4) then (data_abort, mem) else (0, set_word mem a value),
      write_word_lem host mem a value fits ∙ ground (arith, whole),
    )
