-- ===== src/Exception/Valid.antt =====
-- Exceptions and the reset keep the well-formed states.
use projet_s.Common.{ℕ, ◌^◌, ◌<◌, ◌==◌, refl, arith, bit_and, bit_or}
use projet_s.Constants.{reset}
use projet_s.Bits.{bit_and-le, bit_or-lt}
use projet_s.Memory.{Memory}
use projet_s.Memory.Words.{IsBytes}
use projet_s.Registers.{Registers}
use projet_s.Arm.{ArmCore}
use projet_s.Arm.Valid.{
  IsWords, IsValid, IsValid-if, read_cpsr-lt, write_register-IsValid, write_usr_register-IsValid,
  write_cpsr-IsValid, write_spsr-IsValid,
}
use projet_s.Exception.{arm_exception, arm_create, entry_status}

masked-lt : (c m k : ℕ) → c < 2 ^ 32 → k < 2 ^ 32 → bit_or (bit_and c m) k < 2 ^ 32
masked-lt c m k h l =
    let below = bit_and-le 32 c m h in bit_or-lt 32 (bit_and c m) k (omega arith) l

entry_status-lt : (e c : ℕ) → c < 2 ^ 32 → entry_status e c < 2 ^ 32
unfolding entry_status
entry_status-lt e c h = ground (
  arith,
  masked-lt c 0x140 0x9b h (omega arith),
  masked-lt c 0x140 0x93 h (omega arith),
  masked-lt c 0x40 0x197 h (omega arith),
  masked-lt c 0x40 0x192 h (omega arith),
)

pub arm_exception-IsValid :
    {size : ℕ} {p : ArmCore} (e : ℕ) → IsValid size p → IsValid size (arm_exception p e)
unfolding arm_exception
arm_exception-IsValid e valid =
    write_usr_register-IsValid
      (IsValid-if (e == reset)
        (write_register-IsValid (write_cpsr-IsValid valid _ (omega arith)) _ _ (omega arith))
        (write_cpsr-IsValid
          (write_register-IsValid (write_spsr-IsValid valid _ (read_cpsr-lt valid)) _ _
            (omega arith))
          _ (entry_status-lt e _ (read_cpsr-lt valid))))
      _ _ (omega arith)

-- A created processor is well-formed if what the allocator finds is.
pub arm_create-IsValid :
    (registers : Registers) (mem : Memory)
    → IsWords registers
    → IsBytes mem
    → IsValid mem.size (arm_create registers mem)
unfolding arm_create
arm_create-IsValid registers mem words bytes = record {
  words = created.words;
  bytes = created.bytes;
  same_size = created.same_size;
}
  where
    fresh : ArmCore
    fresh = record { cycle_count = 0; reg = registers; mem = mem }

    created : IsValid mem.size (arm_exception fresh reset)
    created =
        arm_exception-IsValid {p = fresh} reset
          (record { words = words; bytes = bytes; same_size = refl })
