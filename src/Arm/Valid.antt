-- ===== src/Arm/Valid.antt =====
-- The well-formed states: every register is a 32-bit word and every cell of the memory a byte. The
-- functions of arm_core.c keep them, and read words from them.
use projet_s.Common.{ℕ, ◌^◌, ◌<◌, ◌≡◌, arith, Bool, true, false, if◌then◌else◌}
use projet_s.Outcome.{Outcome, Ensures, Ensures-all, Ensures-and, Holds}
use projet_s.Word.{Host, add32}
use projet_s.Word.Bytes.{join_half, join_word}
use projet_s.Bits.{bit_and-le}
use projet_s.Memory
use projet_s.Memory.{Memory, update}
use projet_s.Memory.Words.{IsBytes}
use projet_s.Registers
use projet_s.Registers.{Registers}
use projet_s.Arm.{
  ArmCore, ahead, read_register, read_usr_register, read_cpsr, read_spsr, write_register,
  write_usr_register, write_cpsr, write_spsr,
}

abbrev pub IsWords : Registers → Type 0
IsWords r = (i : ℕ) → r i < 2 ^ 32

-- The memory has the size that it was created with.
pub record IsValid (size : ℕ) (p : ArmCore) : Type 0 where
  pub words : IsWords p.reg
  pub bytes : IsBytes p.mem
  pub same_size : p.mem.size ≡ size

pub update-IsWords : (r : Registers) (i v : ℕ) → IsWords r → v < 2 ^ 32 → IsWords (update r i v)
update-IsWords r i v h k j = ground (arith, h j)

pub ahead-lt : (reg v : ℕ) → v < 2 ^ 32 → ahead reg v < 2 ^ 32
unfolding ahead
ahead-lt reg v h = ground (arith, bit_and-le 32 (add32 v 4) 0xFFFFFFFD)

module _ {size : ℕ} {p : ArmCore} (valid : IsValid size p) where
  pub read_register-lt : (reg : ℕ) → read_register p reg < 2 ^ 32
  unfolding read_register Registers.read_register
  read_register-lt reg = ahead-lt reg _ (valid.words _)

  pub read_usr_register-lt : (reg : ℕ) → read_usr_register p reg < 2 ^ 32
  unfolding read_usr_register Registers.read_usr_register
  read_usr_register-lt reg = ahead-lt reg _ (valid.words _)

  pub read_cpsr-lt : read_cpsr p < 2 ^ 32
  unfolding read_cpsr Registers.read_cpsr
  read_cpsr-lt = valid.words _

  pub read_spsr-lt : read_spsr p < 2 ^ 32
  unfolding read_spsr Registers.read_spsr
  read_spsr-lt =
      ground (arith, valid.words 32, valid.words 33, valid.words 34, valid.words 35, valid.words 36)

  set_reg : (r : Registers) → IsWords r → IsValid size (record p { reg = r })
  set_reg r h = record { words = h; bytes = valid.bytes; same_size = valid.same_size }

  pub write_register-IsValid : (reg v : ℕ) → v < 2 ^ 32 → IsValid size (write_register p reg v)
  unfolding write_register Registers.write_register
  write_register-IsValid reg v h = set_reg _ (update-IsWords p.reg _ v valid.words h)

  pub write_usr_register-IsValid :
      (reg v : ℕ) → v < 2 ^ 32 → IsValid size (write_usr_register p reg v)
  unfolding write_usr_register Registers.write_usr_register
  write_usr_register-IsValid reg v h = set_reg _ (update-IsWords p.reg reg v valid.words h)

  pub write_cpsr-IsValid : (v : ℕ) → v < 2 ^ 32 → IsValid size (write_cpsr p v)
  unfolding write_cpsr Registers.write_cpsr
  write_cpsr-IsValid v h = set_reg _ (update-IsWords p.reg _ v valid.words h)

  pub write_spsr-IsValid : (v : ℕ) → v < 2 ^ 32 → IsValid size (write_spsr p v)
  unfolding write_spsr Registers.write_spsr
  write_spsr-IsValid v h = set_reg _ (λ i. ground (arith, valid.words i))

  pub set_mem-IsValid :
      (mem : Memory) → IsBytes mem → mem.size ≡ p.mem.size → IsValid size (record p { mem = mem })
  set_mem-IsValid mem h e = record {
    words = valid.words;
    bytes = h;
    same_size = cc (valid.same_size);
  }

pub IsValid-if :
    {size : ℕ} (b : Bool) {p q : ArmCore}
    → IsValid size p
    → IsValid size q
    → IsValid size (if b then p else q)
IsValid-if true h k = h
IsValid-if false h k = k

-- The value that a read leaves, and the memory that a write leaves.
module _ (host : Host) (mem : Memory) (bytes : IsBytes mem) (a : ℕ) where
  pub read_byte-lt :
      (old : ℕ) → old < 2 ^ 8 → Ensures (Memory.read_byte mem a old) (λ r. r.1 < 2 ^ 8)
  unfolding Memory.read_byte
  read_byte-lt old h = record { holds = ground (arith, bytes a) }

  pub read_half-lt :
      (old : ℕ) → old < 2 ^ 16 → Ensures (Memory.read_half host mem a old) (λ r. r.1 < 2 ^ 16)
  unfolding Memory.read_half
  read_half-lt old h = record {
    holds = ground (
      arith,
      join_half host (mem.m a) (mem.m (add32 a 1)) (bytes _) (bytes _),
      join_half host (mem.m (add32 a 1)) (mem.m a) (bytes _) (bytes _),
      bytes a,
      bytes (add32 a 1),
    );
  }

  pub read_word-lt :
      (old : ℕ) → old < 2 ^ 32 → Ensures (Memory.read_word host mem a old) (λ r. r.1 < 2 ^ 32)
  unfolding Memory.read_word
  read_word-lt old h =
      let b = bytes a in
      let b1 = bytes (add32 a 1) in
      let b2 = bytes (add32 a 2) in
      let b3 = bytes (add32 a 3) in
      record {
        holds = ground (
          arith,
          join_word host (mem.m a) (mem.m (add32 a 1)) (mem.m (add32 a 2)) (mem.m (add32 a 3)) b b1
              b2 b3,
          join_word host (mem.m (add32 a 3)) (mem.m (add32 a 2)) (mem.m (add32 a 1)) (mem.m a) b3 b2
              b1 b,
        );
      }

  -- The cells of the memory after a write are bytes, and there are as many.
  abbrev pub Kept : ℕ × Memory → Type 0
  Kept r = ((i : ℕ) → r.1.m i < 2 ^ 8) × (r.1.size ≡ mem.size)

  kept :
      {run : Outcome (ℕ × Memory)}
      → ((i : ℕ) → Holds run (λ r. r.1.m i < 2 ^ 8))
      → Holds run (λ r. r.1.size ≡ mem.size)
      → Ensures run Kept
  kept cell size =
      Ensures-and (Ensures-all λ i. record { holds = cell i }) (record { holds = size })

  pub write_byte-Kept : (v : ℕ) → Ensures (Memory.write_byte mem a v) Kept
  unfolding Memory.write_byte
  write_byte-Kept v = kept (λ i. ground (arith, bytes i)) (ground arith)

  pub write_half-Kept : (v : ℕ) → Ensures (Memory.write_half host mem a v) Kept
  unfolding Memory.write_half
  write_half-Kept v = kept (λ i. ground (arith, bytes i)) (ground arith)

  pub write_word-Kept : (v : ℕ) → Ensures (Memory.write_word host mem a v) Kept
  unfolding Memory.write_word
  write_word-Kept v = kept (λ i. ground (arith, bytes i)) (ground arith)
