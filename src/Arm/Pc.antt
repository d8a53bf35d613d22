-- ===== src/Arm/Pc.antt =====
-- The program counter: what it reads as, and how a fetch moves it.
use projet_s.Common.{ℕ, ◌+◌, ◌*◌, ◌/◌, ◌%◌, ◌^◌, ◌<◌, ◌≡◌, refl, arith, bit_and, ◌∙◌}
use projet_s.Bits.{bit_and_step, bit_and-mask}
use projet_s.Outcome.{ok, ◌>>=◌, >>=-eq-ok}
use projet_s.Word.{Host, add32, sub32}
use projet_s.Memory
use projet_s.Memory.{update}
use projet_s.Registers
use projet_s.Arm.{ArmCore, ahead, read_register, write_register, fetch}

-- & 0xFFFFFFFD clears bit 1.
pub bit_and-bit1 : (x : ℕ) → x < 2 ^ 32 → bit_and x 0xFFFFFFFD ≡ x / 4 * 4 + x % 2
bit_and-bit1 x h =
    omega (
      arith,
      bit_and_step x 0xFFFFFFFD,
      bit_and_step (x / 2) 0x7FFFFFFE,
      bit_and-mask 30 (x / 2 / 2),
    )

-- & 0xFFFFFFFE clears bit 0.
pub bit_and-bit0 : (x : ℕ) → x < 2 ^ 32 → bit_and x 0xFFFFFFFE ≡ x / 2 * 2
bit_and-bit0 x h = omega (arith, bit_and_step x 0xFFFFFFFE, bit_and-mask 31 (x / 2))

pub ahead-pc : (v : ℕ) → v % 4 ≡ 0 → ahead 15 v ≡ add32 v 4
unfolding ahead
ahead-pc v h = omega (arith, bit_and-bit1 (add32 v 4) (omega arith))

abbrev counted : ArmCore → ArmCore
counted p = record p { cycle_count = add32 p.cycle_count 1 }

-- The state after the fetch of the instruction at `r15`.
abbrev pub fetched : ArmCore → ArmCore
fetched p = record p {
  cycle_count = add32 p.cycle_count 1;
  reg = update p.reg 15 (add32 (p.reg 15) 4);
}

pub read_pc : (p : ArmCore) → p.reg 15 % 4 ≡ 0 → read_register p 15 ≡ add32 (p.reg 15) 4
unfolding read_register Registers.read_register Registers.register_index
read_pc p h = ahead-pc (p.reg 15) h

pub write_pc : (p : ArmCore) (v : ℕ) → write_register p 15 v ≡ record p { reg = update p.reg 15 v }
unfolding write_register Registers.write_register Registers.register_index
write_pc p v = refl

-- A fetch at an aligned program counter reads the word there, moves the program counter on by one
-- instruction and counts a cycle, whether or not the read aborts.
pub fetch-fetched :
    (host : Host) (p : ArmCore) (value : ℕ)
    → p.reg 15 < 2 ^ 32
    → p.reg 15 % 4 ≡ 0
    → fetch host p value
      ≡ (Memory.read_word host p.mem (p.reg 15) value >>= λ r. ok (r.0, r.1, fetched p))
unfolding fetch
fetch-fetched host p value fits aligned = rw (here, write_pc (counted p) (add32 (p.reg 15) 4))
  where
    here : sub32 (read_register (counted p) 15) 4 ≡ p.reg 15
    here = omega (arith, read_pc (counted p) aligned)

pub fetched_of_fetch :
    (host : Host) (p : ArmCore) (value : ℕ) {result ins : ℕ} {p' : ArmCore}
    → p.reg 15 < 2 ^ 32
    → p.reg 15 % 4 ≡ 0
    → fetch host p value ≡ ok (result, ins, p')
    → p' ≡ fetched p
fetched_of_fetch host p value fits aligned done =
    let (a, read, same) =
      >>=-eq-ok (λ r. ok (r.0, r.1, fetched p)) (Memory.read_word host p.mem (p.reg 15) value)
        (rw (fetch-fetched host p value fits aligned) at done) in
    cc

-- After a fetch at an aligned program counter, the program counter reads as the address of the
-- instruction and 8.
pub read_pc-fetch :
    (host : Host) (p : ArmCore) (value : ℕ) {result ins : ℕ} {p' : ArmCore}
    → p.reg 15 < 2 ^ 32
    → p.reg 15 % 4 ≡ 0
    → fetch host p value ≡ ok (result, ins, p')
    → read_register p' 15 ≡ add32 (p.reg 15) 8
read_pc-fetch host p value fits aligned done =
    rw (fetched_of_fetch host p value fits aligned done)
      (read_pc (fetched p) (omega arith) ∙ omega arith)
