-- ===== src/Arm/Transfers.antt =====
-- The accesses of arm_core.c to memory keep the well-formed states.
use projet_s.Common.{ℕ, ◌^◌, ◌<◌, arith}
use projet_s.Outcome.{Outcome, ok, Ensures, ◌>>=◌, Ensures->>=, Ensures-ok}
use projet_s.Word.{Host, add32}
use projet_s.Memory.{Memory}
use projet_s.Arm.{
  ArmCore, fetch, read_byte, read_half, read_word, write_byte, write_half, write_word,
}
use projet_s.Arm.Valid.{
  IsValid, write_register-IsValid, set_mem-IsValid, Kept, read_byte-lt, read_half-lt, read_word-lt,
  write_byte-Kept, write_half-Kept, write_word-Kept,
}

module _ (host : Host) {size : ℕ} {p : ArmCore} (valid : IsValid size p) where
  counted : IsValid size (record p { cycle_count = add32 p.cycle_count 1 })
  counted = record { words = valid.words; bytes = valid.bytes; same_size = valid.same_size }

  -- A fetch reads a word, and keeps the state well-formed.
  pub fetch-IsValid :
      (old : ℕ) → old < 2 ^ 32 → Ensures (fetch host p old) (λ r. (r.1 < 2 ^ 32) × IsValid size r.2)
  unfolding fetch
  fetch-IsValid old h =
      Ensures->>= (read_word-lt host p.mem valid.bytes _ old h)
        λ r fits. Ensures-ok (fits, write_register-IsValid counted 15 _ (omega arith))

  module _ (a : ℕ) where
    pub read_byte-Word : (old : ℕ) → old < 2 ^ 8 → Ensures (read_byte p a old) (λ r. r.1 < 2 ^ 8)
    unfolding read_byte
    read_byte-Word old h = read_byte-lt host p.mem valid.bytes a old h

    pub read_half-Word :
        (old : ℕ) → old < 2 ^ 16 → Ensures (read_half host p a old) (λ r. r.1 < 2 ^ 16)
    unfolding read_half
    read_half-Word old h = read_half-lt host p.mem valid.bytes a old h

    pub read_word-Word :
        (old : ℕ) → old < 2 ^ 32 → Ensures (read_word host p a old) (λ r. r.1 < 2 ^ 32)
    unfolding read_word
    read_word-Word old h = read_word-lt host p.mem valid.bytes a old h

    abbrev with_mem : ℕ × Memory → ℕ × ArmCore
    with_mem r = (r.0, record p { mem = r.1 })

    -- The state with the memory that a write leaves.
    stored :
        {run : Outcome (ℕ × Memory)}
        → Ensures run (Kept host p.mem valid.bytes a)
        → Ensures (run >>= λ r. ok (with_mem r)) (λ r. IsValid size r.1)
    stored e = Ensures->>= e λ r k. Ensures-ok (set_mem-IsValid valid r.1 k.0 k.1)

    pub write_byte-IsValid : (v : ℕ) → Ensures (write_byte p a v) (λ r. IsValid size r.1)
    unfolding write_byte
    write_byte-IsValid v = stored (write_byte-Kept host p.mem valid.bytes a v)

    pub write_half-IsValid : (v : ℕ) → Ensures (write_half host p a v) (λ r. IsValid size r.1)
    unfolding write_half
    write_half-IsValid v = stored (write_half-Kept host p.mem valid.bytes a v)

    pub write_word-IsValid : (v : ℕ) → Ensures (write_word host p a v) (λ r. IsValid size r.1)
    unfolding write_word
    write_word-IsValid v = stored (write_word-Kept host p.mem valid.bytes a v)
