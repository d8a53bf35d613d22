-- ===== src/LoadStore/Multiple/Pair.antt =====
-- A push and a pop with the same base register and list: their addresses and their write back.
use projet_s.Common.{
  ℕ, zero, suc, ◌+◌, ◌-◌, ◌*◌, ◌/◌, ◌%◌, ◌^◌, ◌<◌, ◌≤◌, ◌≡◌, ◌≢◌, refl, ◌∙◌, arith, ◌==◌,
  if◌then◌else◌,
}
use projet_s.Word.{Host, add32, sub32}
use projet_s.Util.{get_bits}
use projet_s.Util.Fields.{get_bit-eq-mod}
use projet_s.Registers
use projet_s.Registers.{Registers}
use projet_s.Registers.Access.{read_register-write_register}
use projet_s.Arm
use projet_s.Arm.{ArmCore, ahead}
use projet_s.LoadStore.Multiple.{Transfer, first_address}
use projet_s.LoadStore.Multiple.Addresses.{listed, first_address_lem}
use projet_s.LoadStore.Multiple.Store.{reads}
use projet_s.LoadStore.Multiple.Block.{IsStored, finish}

-- A store that moves the base down before each transfer, and writes it back.
pub record IsPush (host : Host) (ins rn : ℕ) : Type 0 where
  pub store : ins / 2 ^ 20 % 2 ≡ 0
  pub write_back : ins / 2 ^ 21 % 2 ≡ 1
  pub down : ins / 2 ^ 23 % 2 ≡ 0
  pub before : ins / 2 ^ 24 % 2 ≡ 1
  pub base : get_bits host ins 19 16 ≡ rn

-- A load that moves the base up after each transfer, and writes it back.
pub record IsPop (host : Host) (ins rn : ℕ) : Type 0 where
  pub load : ins / 2 ^ 20 % 2 ≡ 1
  pub write_back : ins / 2 ^ 21 % 2 ≡ 1
  pub up : ins / 2 ^ 23 % 2 ≡ 1
  pub after : ins / 2 ^ 24 % 2 ≡ 0
  pub base : get_bits host ins 19 16 ≡ rn

abbrev pub SameList : ℕ → ℕ → Type 0
SameList ins ins' = (k : ℕ) → k < 16 → ins' / 2 ^ k % 2 ≡ ins / 2 ^ k % 2

pub listed-same :
    (ins ins' n ri : ℕ) → SameList ins ins' → ri + n ≤ 16 → listed ins' n ri ≡ listed ins n ri
unfolding listed
listed-same ins ins' zero ri same h = refl
listed-same ins ins' (suc n) ri same h =
    omega (arith, same ri (omega arith), listed-same ins ins' n (ri + 1) same (omega arith))

-- Below the program counter, instructions read what the register holds.
pub read-plain :
    (p : ArmCore) (k : ℕ) → k ≢ 15 → Arm.read_register p k ≡ Registers.read_register p.reg k
unfolding Arm.read_register ahead
read-plain p k h = ground arith

pub reads-plain : (r : Registers) (k : ℕ) → k ≢ 15 → reads r k ≡ Registers.read_register r k
unfolding ahead
reads-plain r k h = ground arith

module _ (host : Host) (ins ins' rn : ℕ) (push : IsPush host ins rn)
    (pop : IsPop host ins' rn) where
  pub first_push :
      (start : ℕ)
      → start < 2 ^ 32
      → 4 * listed ins 16 0 ≤ start
      → first_address host ins start ≡ start - 4 * listed ins 16 0
  first_push start fits room =
      ground (arith, first_address_lem host ins start fits, push.down, push.before)

  pub first_pop : (start : ℕ) → start < 2 ^ 32 → first_address host ins' start ≡ start
  first_pop start fits = ground (arith, first_address_lem host ins' start fits, pop.up, pop.after)

  -- The registers after the loop of the load and the write back.
  pub reg-pop :
      (p : ArmCore) (t : Transfer) (k : ℕ)
      → rn < 16
      → k < 16
      → Registers.read_register (finish host ins' p t).reg k ≡ (
          if rn == k
          then add32 (Arm.read_register p rn) (t.number_of_set_bits * 4)
          else Registers.read_register t.core.reg k)
  unfolding finish Arm.write_register
  reg-pop p t k h l =
      rw
        (
          get_bit-eq-mod host ins' 21 (omega arith),
          pop.write_back,
          get_bit-eq-mod host ins' 23 (omega arith),
          pop.up,
          pop.base,
        )
        (read_register-write_register t.core.reg rn k _ h l)

  -- The registers and the place of the block after the store.
  pub pushed_base :
      (p p' : ArmCore) (a : ℕ)
      → IsStored host ins p p' a
      → p'.reg
        ≡ Registers.write_register p.reg rn (sub32 (Arm.read_register p rn) (4 * listed ins 16 0))
  pushed_base p p' a stored =
      stored.registers
      ∙ rw
          (
            get_bit-eq-mod host ins 21 (omega arith),
            push.write_back,
            get_bit-eq-mod host ins 23 (omega arith),
            push.down,
            push.base,
          )
          refl
