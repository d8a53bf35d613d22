-- ===== src/LoadStore/Multiple/Block.antt =====
-- The block that `arm_load_store_multiple` stores, and what it leaves in the base register.
use projet_s.Common.{
  ℕ, ◌+◌, ◌*◌, ◌/◌, ◌%◌, ◌^◌, ◌<◌, ◌≤◌, ◌≡◌, ◌⊎◌, refl, ap, ◌∙◌, arith, nonzero, both_ways,
  if◌then◌else◌,
}
use projet_s.Outcome.{ok}
use projet_s.Word.{Host, add32, sub32}
use projet_s.Util.{get_bit, get_bits}
use projet_s.Memory.Words.{IsBytes, word_at}
use projet_s.Registers
use projet_s.Arm
use projet_s.Arm.{ArmCore}
use projet_s.Arm.Valid.{IsValid}
use projet_s.LoadStore.Multiple.{Transfer, first_address, arm_load_store_multiple}
use projet_s.LoadStore.Multiple.Addresses.{listed}
use projet_s.LoadStore.Multiple.Store.{reads, IsListed, Stored, Room, transfer_all-Stored}

-- The registers in the list of the instruction stand from `a` on in the memory of `p'`, one after
-- the other, and no other word has changed. The base register has moved by as many words, if
-- bit 21 is set, and the other registers are as they were.
pub record IsStored (host : Host) (ins : ℕ) (p p' : ArmCore) (a : ℕ) : Type 0 where
  pub words :
      (k : ℕ) → k < 16 → IsListed ins k → word_at p'.mem (a + 4 * listed ins k 0) ≡ reads p.reg k
  pub elsewhere :
      (b : ℕ) → (b + 4 ≤ a) ⊎ (a + 4 * listed ins 16 0 ≤ b) → word_at p'.mem b ≡ word_at p.mem b
  pub bytes : IsBytes p'.mem
  pub same_size : p'.mem.size ≡ p.mem.size
  pub registers : p'.reg ≡ (
      let rn = get_bits host ins 19 16 in
      let start = Arm.read_register p rn in
      let moved = 4 * listed ins 16 0 in
      if nonzero (get_bit host ins 21)
      then Registers.write_register p.reg rn
          (if nonzero (get_bit host ins 23) then add32 start moved else sub32 start moved)
      else p.reg)

module _ (host : Host) (ins : ℕ) where
  unfoldable pub begin : ArmCore → Transfer
  begin p = record {
    core = p;
    address = first_address host ins (Arm.read_register p (get_bits host ins 19 16));
    number_of_set_bits = 0;
    val = host.indeterminate;
    res = host.indeterminate;
  }

  unfoldable pub finish : ArmCore → Transfer → ArmCore
  finish p t =
      if nonzero (get_bit host ins 21)
      then Arm.write_register t.core (get_bits host ins 19 16) (
          if nonzero (get_bit host ins 23)
          then add32 (Arm.read_register p (get_bits host ins 19 16)) (t.number_of_set_bits * 4)
          else sub32 (Arm.read_register p (get_bits host ins 19 16)) (t.number_of_set_bits * 4))
      else t.core

  pub mem-finish : (p : ArmCore) (t : Transfer) → (finish p t).mem ≡ t.core.mem
  unfolding finish Arm.write_register
  mem-finish p t = both_ways (nonzero (get_bit host ins 21)) (λ b. rw b refl) λ b. rw b refl

  reg-finish :
      (p : ArmCore) (t : Transfer)
      → t.core.reg ≡ p.reg
      → t.number_of_set_bits ≡ listed ins 16 0
      → (finish p t).reg ≡ (
          if nonzero (get_bit host ins 21)
          then Registers.write_register p.reg (get_bits host ins 19 16) (
              if nonzero (get_bit host ins 23)
              then add32 (Arm.read_register p (get_bits host ins 19 16)) (4 * listed ins 16 0)
              else sub32 (Arm.read_register p (get_bits host ins 19 16)) (4 * listed ins 16 0))
          else p.reg)
  unfolding finish Arm.write_register
  reg-finish p t same count =
      both_ways (nonzero (get_bit host ins 21)) (λ b. rw (b, same, count, order) refl)
        λ b. rw b same
    where
      order : listed ins 16 0 * 4 ≡ 4 * listed ins 16 0
      order = omega arith

  block :
      (p : ArmCore) (t : Transfer)
      → Stored ins 16 0 (begin p) t
      → IsStored host ins p
          (finish p t)
          (first_address host ins (Arm.read_register p (get_bits host ins 19 16)))
  unfolding begin
  block p t stored = record {
    words = λ k h l.
        let index : 0 + k ≡ k = omega arith in
        ap (λ m. word_at m (a + 4 * listed ins k 0)) (mem-finish p t)
        ∙ stored.words k h (ap (λ i. ins / 2 ^ i % 2) index ∙ l)
        ∙ ap (reads p.reg) index;
    elsewhere = λ b h. ap (λ m. word_at m b) (mem-finish p t) ∙ stored.elsewhere b h;
    bytes = λ i. rw (mem-finish p t) (stored.bytes i);
    same_size = ap (λ m. m.size) (mem-finish p t) ∙ stored.size;
    registers = reg-finish p t stored.registers (omega (arith, stored.count));
  }
    where
      a : ℕ
      a = first_address host ins (Arm.read_register p (get_bits host ins 19 16))

  -- A multiple store from a well-formed state whose block is aligned and inside the memory
  -- succeeds and stores the block; the base register is written back if bit 21 is set.
  pub arm_load_store_multiple-IsStored :
      {size : ℕ} (p : ArmCore)
      → IsValid size p
      → ins / 2 ^ 20 % 2 ≡ 0
      → let a = first_address host ins (Arm.read_register p (get_bits host ins 19 16)) in
        a % 4 ≡ 0
        → a + 4 * listed ins 16 0 ≤ size
        → a + 4 * listed ins 16 0 < 2 ^ 32
        → (res : ℕ) × (p' : ArmCore) × (arm_load_store_multiple host ins p ≡ ok (res, p'))
          × IsStored host ins p p' a
  unfolding arm_load_store_multiple finish begin
  arm_load_store_multiple-IsStored p valid store aligned inside below =
      let room : Room host ins store 16 0 (begin p) = record {
        aligned = aligned;
        inside = omega (arith, valid.same_size);
        below = below;
        words = valid.words;
        bytes = valid.bytes;
      } in
      let (t, done, stored) =
        transfer_all-Stored host ins store 16 0 (begin p) (omega arith) room in
      (t.res, finish p t, rw done refl, block p t stored)
