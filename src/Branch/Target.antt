-- ===== src/Branch/Target.antt =====
-- Where a branch goes, and what it links.
use projet_s.Arm.Access.{pc-written, write_register_frame, read_register-written, read_cpsr-written}
use projet_s.Arm.Pc.{read_pc}
use projet_s.Word.Shift.{shl-eq-mul}
use projet_s.Bits.{bit_or-fields, bit_or_comm, bit_and-mask, bit_and-scaled}
use projet_s.Word.{sub32, add32, shl, Host}
use projet_s.Common.{
  ℕ, ◌+◌, ◌-◌, ◌*◌, ◌/◌, ◌%◌, ◌^◌, ◌<◌, ◌≡◌, ap, arith, ◌∙◌, ◌==◌, ltb, ◌&&◌, if◌then◌else◌,
  nonzero, bit_and, bit_or,
}
use projet_s.Branch.{sign_extending, arm_branch}
use projet_s.Arm
use projet_s.Arm.{ArmCore}

-- The 24-bit two's complement number in the low bits of an instruction, in words of 4 bytes,
-- modulo 2 ^ 32.
abbrev pub offset24 : ℕ → ℕ
offset24 ins =
    let low = ins % 2 ^ 24 in if ltb low (2 ^ 23) then 4 * low else 2 ^ 32 - 4 * (2 ^ 24 - low)

bit_23 : (x : ℕ) → bit_and x (2 ^ 23) ≡ x / 2 ^ 23 % 2 * 2 ^ 23
bit_23 x = bit_and-scaled 23 x 1 ∙ omega (arith, bit_and-mask 1 (x / 2 ^ 23))

-- `|` with the bits from 24 to 29, which the shift by 2 moves to the top.
extend : (x : ℕ) → x < 2 ^ 24 → bit_or x 0x3F000000 ≡ 0x3F000000 + x
extend x h = bit_or_comm 30 x 0x3F000000 (omega arith) (omega arith) ∙ bit_or-fields 24 0x3F x h

module _ (host : Host) where
  pub sign_extending-offset24 :
      (ins : ℕ) → shl host (sign_extending (bit_and ins 0xFFFFFF)) 2 ≡ offset24 ins
  unfolding sign_extending
  sign_extending-offset24 ins = rw (bit_and-mask 24 ins) (
      ground (
        arith,
        bit_23 (ins % 2 ^ 24),
        extend (ins % 2 ^ 24) (omega arith),
        shl-eq-mul host (0x3F000000 + ins % 2 ^ 24) 2 (omega arith),
        shl-eq-mul host (ins % 2 ^ 24) 2 (omega arith),
      ))

-- `p'` is `p` after the branch at `here` with the instruction `ins`.
pub record Branched (p : ArmCore) (here ins : ℕ) (p' : ArmCore) : Type 0 where
  pub target : p'.reg 15 ≡ add32 here (add32 8 (offset24 ins))
  pub link :
      Arm.read_register p' 14
      ≡ (if ins / 2 ^ 24 % 2 == 1 then add32 here 4 else Arm.read_register p 14)
  pub others : (a : ℕ) → a < 14 → Arm.read_register p' a ≡ Arm.read_register p a
  pub status : Arm.read_cpsr p' ≡ Arm.read_cpsr p
  pub memory : p'.mem ≡ p.mem
  pub cycles : p'.cycle_count ≡ p.cycle_count

module _ (host : Host) (p : ArmCore) (ins here : ℕ) (next : p.reg 15 ≡ add32 here 4)
    (aligned : here % 4 ≡ 0) (fits : here < 2 ^ 32) where
  linked : ArmCore
  linked = if ins / 2 ^ 24 % 2 == 1 then Arm.write_register p 14 (add32 here 4) else p

  link_bit : nonzero (bit_and ins (2 ^ 24)) ≡ (ins / 2 ^ 24 % 2 == 1)
  link_bit = ground (arith, bit_and-scaled 24 ins 1, bit_and-mask 1 (ins / 2 ^ 24))

  own_address : Arm.read_register p 15 ≡ add32 here 8
  own_address = read_pc p (omega (arith, next)) ∙ omega (arith, next)

  linked_pc : Arm.read_register linked 15 ≡ add32 here 8
  unfolding linked
  linked_pc =
      ground (
        arith,
        read_register-written p 14 15 (add32 here 4) (omega arith) (omega arith),
        own_address,
      )

  branched :
      (arm_branch host p ins).1 ≡ Arm.write_register linked 15 (add32 here (add32 8 (offset24 ins)))
  unfolding arm_branch linked
  branched =
      rw (link_bit, return_address, sign_extending-offset24 host ins, linked_pc)
        (ap (Arm.write_register linked 15) (omega arith))
    where
      return_address : sub32 (Arm.read_register p 15) 4 ≡ add32 here 4
      return_address = omega (arith, own_address)

  linked_register :
      (a : ℕ)
      → a < 15
      → Arm.read_register linked a
        ≡ (if ins / 2 ^ 24 % 2 == 1 && 14 == a then add32 here 4 else Arm.read_register p a)
  unfolding linked
  linked_register a h =
      ground
        (arith, read_register-written p 14 a (add32 here 4) (omega arith) (omega arith), plain a h)
    where
      plain : (a : ℕ) → a < 15 → Arm.ahead a (add32 here 4) ≡ add32 here 4
      plain a h = unfold Arm.ahead in ground arith

  branched_register :
      (v a : ℕ)
      → a < 15
      → Arm.read_register (Arm.write_register linked 15 v) a ≡ Arm.read_register linked a
  branched_register v a h =
      ground (arith, read_register-written linked 15 a v (omega arith) (omega arith))

  linked_frame :
      (Arm.read_cpsr linked ≡ Arm.read_cpsr p)
      × (linked.mem ≡ p.mem)
      × (linked.cycle_count ≡ p.cycle_count)
  unfolding linked
  linked_frame = ground (
    arith,
    read_cpsr-written p 14 (add32 here 4) (omega arith),
    write_register_frame p 14 (add32 here 4),
  )

-- With the program counter one instruction after an aligned address, where the branch stands, a
-- branch adds the instruction's signed offset, in words, to its own address and 8. With the link
-- bit it also puts the address of the next instruction into the link register of its mode.
pub arm_branch-Branched :
    (host : Host) (p : ArmCore) (ins here : ℕ)
    → p.reg 15 ≡ add32 here 4
    → here % 4 ≡ 0
    → here < 2 ^ 32
    → Branched p here ins (arm_branch host p ins).1
arm_branch-Branched host p ins here next aligned fits =
    let p' = linked host p ins here next aligned fits in
    let to = add32 here (add32 8 (offset24 ins)) in
    let registers = linked_register host p ins here next aligned fits in
    let others = branched_register host p ins here next aligned fits to in
    let frame = linked_frame host p ins here next aligned fits in
    rw (branched host p ins here next aligned fits) (record {
      target = pc-written p' to;
      link = ground (arith, others 14 (omega arith), registers 14 (omega arith));
      others = λ a h. ground (arith, others a (omega arith), registers a (omega arith));
      status = read_cpsr-written p' 15 to (omega arith) ∙ frame.0;
      memory = (write_register_frame p' 15 to).0 ∙ frame.1;
      cycles = (write_register_frame p' 15 to).1 ∙ frame.2;
    })
