-- ===== src/Gdb/Commands/Continue.antt =====
-- The handler `cont`, which runs the program up to a breakpoint.
use projet_s.Common.{ℕ, zero, suc, ◌==◌, Bool, bit_and, if◌then◌else◌, List}
use projet_s.Outcome.{Outcome, ok, unfinished, ◌>>=◌}
use projet_s.Word.{Host, sub32}
use projet_s.Arm
use projet_s.Arm.{ArmCore}
use projet_s.Instruction.{arm_step}
use projet_s.Gdb.State.{GdbProtocolData, gdb_send_stop_reason}

-- The undefined instruction that gdb puts at a breakpoint.
abbrev pub is_breakpoint : ℕ → Bool
is_breakpoint instruction = bit_and instruction 0xFFF000F0 == 0xE7F000F0

module _ (host : Host) where
  -- The status of the read, and `instruction` afterwards.
  unfoldable pub next_instruction : ArmCore → ℕ → Outcome (ℕ × ℕ)
  next_instruction p instruction =
      let r15 = sub32 (Arm.read_register p 15) 4 in Arm.read_word host p r15 instruction

  -- The loop, for a number of rounds; `instruction` keeps its value when a read aborts.
  unfoldable pub run : ℕ → GdbProtocolData → ℕ → Outcome GdbProtocolData
  unfolding next_instruction
  run zero gdb instruction = unfinished
  run (suc n) gdb instruction = do
    (_, instruction) ← next_instruction gdb.arm instruction
    if is_breakpoint instruction then ok gdb else do
      (result, p) ← arm_step host gdb.arm
      run n (record gdb { arm = p; target_exception = result }) instruction

  unfoldable pub cont : ℕ → GdbProtocolData → List ℕ → Outcome GdbProtocolData
  unfolding run
  cont rounds gdb text = do gdb ← run rounds gdb host.indeterminate; gdb_send_stop_reason gdb
