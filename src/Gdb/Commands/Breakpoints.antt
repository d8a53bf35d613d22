-- ===== src/Gdb/Commands/Breakpoints.antt =====
-- `cont` against the words of the program: it stops at the first breakpoint and no earlier.
use projet_s.Common.{
  ℕ, zero, suc, ◌+◌, ◌*◌, ◌/◌, ◌%◌, ◌^◌, ◌≤◌, ◌<◌, ◌≡◌, ◌≢◌, ◌⊎◌, arith, ◌∙◌, true, false, bit_and,
  if◌then◌else◌, List, refl, ltb, both_ways,
}
use projet_s.Bits.{bit_and-mask, bit_and_step, bit_and-scaled}
use projet_s.Outcome.{ok, unfinished}
use projet_s.Word.{Host, sub32}
use projet_s.Memory.Words.{word_at-lt}
use projet_s.Memory.Access.{read_word_lem}
use projet_s.Arm
use projet_s.Arm.{ArmCore}
use projet_s.Arm.Pc.{read_pc}
use projet_s.Instruction.{arm_step}
use projet_s.Instruction.Steps.{IsReady, current}
use projet_s.Gdb.State.{GdbProtocolData, gdb_send_stop_reason}
use projet_s.Gdb.Commands.Continue.{is_breakpoint, next_instruction, run, cont}

-- The undefined instruction that gdb puts at a breakpoint: its upper twelve bits are 0xE7F and its
-- bits 4 to 7 are set.
abbrev pub IsBreakpoint : ℕ → Type 0
IsBreakpoint ins = (ins / 2 ^ 20 ≡ 0xE7F) × (ins / 2 ^ 4 % 2 ^ 4 ≡ 0xF)

abbrev pub IsOther : ℕ → Type 0
IsOther ins = (ins / 2 ^ 20 ≢ 0xE7F) ⊎ (ins / 2 ^ 4 % 2 ^ 4 ≢ 0xF)

fields : (x : ℕ) → x < 2 ^ 28 → bit_and x 0xFFF000F ≡ x / 2 ^ 16 * 2 ^ 16 + x % 2 ^ 4
fields x h = omega (
  arith,
  bit_and_step x 0xFFF000F,
  bit_and_step (x / 2) 0x7FF8007,
  bit_and_step (x / 2 / 2) 0x3FFC003,
  bit_and_step (x / 2 / 2 / 2) 0x1FFE001,
  bit_and-scaled 12 (x / 2 / 2 / 2 / 2) 0xFFF,
  bit_and-mask 12 (x / 2 / 2 / 2 / 2 / 2 ^ 12),
)

module _ (ins : ℕ) (word : ins < 2 ^ 32) where
  masked : bit_and ins 0xFFF000F0 ≡ (ins / 2 ^ 20 * 2 ^ 16 + ins / 2 ^ 4 % 2 ^ 4) * 2 ^ 4
  masked = bit_and-scaled 4 ins 0xFFF000F ∙ rw (fields (ins / 2 ^ 4) (omega arith)) (omega arith)

  is_breakpoint-true : IsBreakpoint ins → is_breakpoint ins ≡ true
  is_breakpoint-true (upper, lower) = rw masked (ground (arith, upper, lower))

  is_breakpoint-false : IsOther ins → is_breakpoint ins ≡ false
  is_breakpoint-false other = rw masked (ground (arith, other))

module _ (host : Host) where
  next_instruction-current :
      (p : ArmCore) (old : ℕ) → IsReady p → next_instruction host p old ≡ ok (0, current p)
  unfolding next_instruction Arm.read_word
  next_instruction-current p old ready = rw here (
      read_word_lem host p.mem (p.reg 15) old ready.bytes
        (omega (arith, ready.inside, ready.size_fits))
      ∙ ground (arith, ready.inside))
    where
      here : sub32 (Arm.read_register p 15) 4 ≡ p.reg 15
      here = omega (arith, read_pc p ready.aligned, ready.inside, ready.size_fits)

  -- n steps of the program, each at a word of the memory that is no breakpoint.
  pub data Runs : GdbProtocolData → ℕ → GdbProtocolData → Type 0 where
    here : {gdb : GdbProtocolData} → Runs gdb 0 gdb
    onward :
        {gdb last : GdbProtocolData} {n : ℕ} (result : ℕ) (p : ArmCore)
        → IsReady gdb.arm
        → IsOther (current gdb.arm)
        → arm_step host gdb.arm ≡ ok (result, p)
        → Runs (record gdb { arm = p; target_exception = result }) n last
        → Runs gdb (suc n) last

  ends :
      {gdb last : GdbProtocolData} (old n rounds : ℕ)
      → n < rounds
      → Runs gdb n last
      → IsReady last.arm
      → IsBreakpoint (current last.arm)
      → run host rounds gdb old ≡ ok last
  unfolding run
  ends old n zero h r ready found = ground arith
  ends {gdb} old zero (suc rounds) h here ready found =
      rw
        (
          next_instruction-current gdb.arm old ready,
          is_breakpoint-true (current gdb.arm) (word_at-lt gdb.arm.mem (gdb.arm.reg 15) ready.bytes)
              found,
        )
        refl
  ends {gdb} old (suc n) (suc rounds) h (onward result p at other stepped rest) ready found =
      rw
        (
          next_instruction-current gdb.arm old at,
          is_breakpoint-false (current gdb.arm) (word_at-lt gdb.arm.mem (gdb.arm.reg 15) at.bytes)
              other,
          stepped,
        )
        (ends (current gdb.arm) n rounds (omega arith) rest ready found)

  goes_on :
      {gdb last : GdbProtocolData} (old n rounds : ℕ)
      → rounds ≤ n
      → Runs gdb n last
      → run host rounds gdb old ≡ unfinished
  unfolding run
  goes_on old n zero h r = refl
  goes_on old zero (suc rounds) h r = ground arith
  goes_on {gdb} old (suc n) (suc rounds) h (onward result p at other stepped rest) =
      rw
        (
          next_instruction-current gdb.arm old at,
          is_breakpoint-false (current gdb.arm) (word_at-lt gdb.arm.mem (gdb.arm.reg 15) at.bytes)
              other,
          stepped,
        )
        (goes_on (current gdb.arm) n rounds (omega arith) rest)

  -- If the program reaches the word of a breakpoint after n steps, all of them at words of the
  -- memory that are none, `cont` ends in any number of rounds above n and answers why the program
  -- stopped there, and it has not ended in any number of rounds up to n.
  pub cont_lem :
      (gdb last : GdbProtocolData) (text : List ℕ) (n rounds : ℕ)
      → Runs gdb n last
      → IsReady last.arm
      → IsBreakpoint (current last.arm)
      → cont host rounds gdb text ≡ (if ltb n rounds then gdb_send_stop_reason last else unfinished)
  unfolding cont
  cont_lem gdb last text n rounds r ready found =
      both_ways (ltb n rounds)
        (λ more.
          rw (more, ends host.indeterminate n rounds (ground (arith, more)) r ready found) refl)
        λ less. rw (less, goes_on host.indeterminate n rounds (ground (arith, less)) r) refl
