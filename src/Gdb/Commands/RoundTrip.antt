-- ===== src/Gdb/Commands/RoundTrip.antt =====
-- `write_general_registers` on the answer of `read_general_registers`.
use projet_s.Common.{
  ℕ, zero, suc, ◌+◌, ◌%◌, ◌^◌, ◌<◌, ◌≤◌, ◌≡◌, ◌≢◌, refl, sym, ap, ◌∙◌, arith, ◌==◌, drop, List, [],
  ◌++◌, false, both_ways,
}
use projet_s.Constants.{cpsr}
use projet_s.Word.{Host, sub32}
use projet_s.Memory.{update}
use projet_s.Registers
use projet_s.Registers.{Registers}
use projet_s.Arm
use projet_s.Arm.{ArmCore}
use projet_s.Arm.Pc.{read_pc, write_pc}
use projet_s.Arm.Valid.{IsValid, read_register-lt, read_cpsr-lt}
use projet_s.Gdb.Hex.{print_byte}
use projet_s.Gdb.Uint32.{write_uint32, read_uint32, read_uint32-write_uint32, write_bytes}
use projet_s.Gdb.State.{GdbProtocolData, gdb_send_buffer, gdb_send_data}
use projet_s.Gdb.Commands.{
  registers_text, unknown, read_general_registers, write_registers, write_general_registers,
  ok_text,
}

-- Writing what a place of the file holds leaves the file as it is.
update_self : (r : Registers) (i : ℕ) → update r i (r i) ≡ r
update_self r i = λ φ j. cell j φ
  where
    cell : (j : ℕ) → update r i (r i) j ≡ r j
    cell j = both_ways (i == j) (λ same. rw same (ap r (ground arith))) λ other. rw other refl

with_reg : (p : ArmCore) (r : Registers) → r ≡ p.reg → record p { reg = r } ≡ p
with_reg p r e = ap (λ s. record p { reg = s }) e

write_register_self :
    (p : ArmCore) (i : ℕ) → i ≢ 15 → Arm.write_register p i (Arm.read_register p i) ≡ p
unfolding Arm.write_register Arm.read_register Arm.ahead Registers.write_register
    Registers.read_register
write_register_self p i h = rw low (with_reg p _ (update_self p.reg _))
  where
    low : (i == 15) ≡ false
    low = ground arith

module _ (host : Host) where
  drop-write_uint32 : (v : ℕ) (cs : List ℕ) → drop 8 (write_uint32 host v ++ cs) ≡ cs
  unfolding write_uint32 write_bytes print_byte
  drop-write_uint32 v cs = refl

  drop-unknown : (cs : List ℕ) → drop 200 (unknown 24 ++ (unknown 1 ++ cs)) ≡ cs
  unfolding unknown
  drop-unknown cs = refl

  joined :
      (v : ℕ) (cs ds : List ℕ)
      → (write_uint32 host v ++ cs) ++ ds ≡ write_uint32 host v ++ (cs ++ ds)
  unfolding write_uint32 write_bytes print_byte
  joined v cs ds = refl

  nothing_after : (v : ℕ) → write_uint32 host v ++ [] ≡ write_uint32 host v
  unfolding write_uint32 write_bytes print_byte
  nothing_after v = refl

  -- A round of the loop on the text of a word.
  write_one :
      (p : ArmCore) (k i v : ℕ) (rest : List ℕ)
      → v < 2 ^ 32
      → write_registers host p (suc k) i (write_uint32 host v ++ rest)
        ≡ write_registers host (Arm.write_register p i v) k (i + 1) rest
  unfolding write_registers
  write_one p k i v rest h =
      rw (read_uint32-write_uint32 host v rest h, drop-write_uint32 v rest) refl

  module _ {size : ℕ} (p : ArmCore) (valid : IsValid size p) where
    -- Each register that is read back from its text is written as it was.
    write_registers-registers_text :
        (n m k i : ℕ) (rest : List ℕ)
        → k ≡ n + m
        → i + n ≤ 15
        → write_registers host p k i (registers_text host p n i ++ rest)
          ≡ write_registers host p m (i + n) rest
    unfolding registers_text
    write_registers-registers_text zero m k i rest total low = rw (all, start) refl
      where
        all : k ≡ m
        all = omega arith

        start : i + 0 ≡ i
        start = omega arith
    write_registers-registers_text (suc n) m zero i rest total low = ground arith
    write_registers-registers_text (suc n) m (suc k) i rest total low =
        ap (write_registers host p (suc k) i)
          (joined (Arm.read_register p i) (registers_text host p n (i + 1)) rest)
        ∙ write_one p k i (Arm.read_register p i) (registers_text host p n (i + 1) ++ rest)
            (read_register-lt valid i)
        ∙ ap (λ q. write_registers host q k (i + 1) (registers_text host p n (i + 1) ++ rest))
            (write_register_self p i (omega arith))
        ∙ write_registers-registers_text n m k (i + 1) rest (omega arith) (omega arith)
        ∙ ap (λ j. write_registers host p m j rest) next
      where
        next : i + 1 + n ≡ i + suc n
        next = omega arith

    -- What follows the registers r0 to r14.
    abbrev tail : List ℕ
    tail = unknown 24 ++ (unknown 1 ++ write_uint32 host (Arm.read_cpsr p))

    all_registers :
        p.reg 15 % 4 ≡ 0
        → write_registers host p 16 0 (
            registers_text host p 15 0
            ++ (write_uint32 host (sub32 (Arm.read_register p 15) 4) ++ tail))
          ≡ (p, tail)
    unfolding write_registers
    all_registers aligned =
        write_registers-registers_text 15 1 16 0 _ refl (omega arith)
        ∙ write_one p 0 15 (sub32 (Arm.read_register p 15) 4) tail (omega arith)
        ∙ ap (λ q. (q, tail))
            (ap (Arm.write_register p 15) here
              ∙ write_pc p (p.reg 15)
              ∙ with_reg p _ (update_self p.reg 15))
      where
        here : sub32 (Arm.read_register p 15) 4 ≡ p.reg 15
        here = omega (arith, read_pc p aligned, valid.words 15)

    status_text : read_uint32 host (write_uint32 host (Arm.read_cpsr p)) ≡ Arm.read_cpsr p
    status_text =
        ap (read_uint32 host) (sym (nothing_after (Arm.read_cpsr p)))
        ∙ read_uint32-write_uint32 host (Arm.read_cpsr p) [] (read_cpsr-lt valid)

    write_cpsr_self : Arm.write_cpsr p (Arm.read_cpsr p) ≡ p
    unfolding Arm.write_cpsr Arm.read_cpsr Registers.write_cpsr Registers.read_cpsr
    write_cpsr_self = with_reg p _ (update_self p.reg cpsr)

  -- The state after `write_general_registers`, from what the loop leaves.
  abbrev finished : GdbProtocolData → ArmCore × List ℕ → GdbProtocolData
  finished gdb r = record gdb { arm = Arm.write_cpsr r.0 (read_uint32 host (drop 200 r.1)) }

  write_general_registers_loop :
      (gdb : GdbProtocolData) (text : List ℕ) (r : ArmCore × List ℕ)
      → write_registers host gdb.arm 16 0 text ≡ r
      → write_general_registers host gdb text ≡ gdb_send_data (finished gdb r) ok_text
  unfolding write_general_registers
  write_general_registers_loop gdb text r e = ap (λ s. gdb_send_data (finished gdb s) ok_text) e

  -- The text that `read_general_registers` answers with is one that `write_general_registers` takes
  -- back: if the state is well-formed and the program counter aligned, every register and the
  -- status word stay as they were.
  pub write_general_registers-read_general_registers :
      {size : ℕ} (gdb : GdbProtocolData) (text : List ℕ)
      → IsValid size gdb.arm
      → gdb.arm.reg 15 % 4 ≡ 0
      → (answer : List ℕ) × (read_general_registers host gdb text ≡ gdb_send_buffer gdb answer)
        × (write_general_registers host gdb answer ≡ gdb_send_data gdb ok_text)
  unfolding read_general_registers
  write_general_registers-read_general_registers gdb text valid aligned = (
    _,
    refl,
    write_general_registers_loop gdb _ _ (all_registers gdb.arm valid aligned)
        ∙ ap (λ q. gdb_send_data (record gdb { arm = q }) ok_text) same,
  )
    where
      same : Arm.write_cpsr gdb.arm (read_uint32 host (drop 200 (tail gdb.arm valid))) ≡ gdb.arm
      same =
          ap (λ cs. Arm.write_cpsr gdb.arm (read_uint32 host cs))
            (drop-unknown (write_uint32 host (Arm.read_cpsr gdb.arm)))
          ∙ ap (Arm.write_cpsr gdb.arm) (status_text gdb.arm valid)
          ∙ write_cpsr_self gdb.arm valid
