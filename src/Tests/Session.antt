-- ===== src/Tests/Session.antt =====
-- The theorems on the debugger's connection, the table of files and the programs beside the
-- simulator.
use projet_s.Common.{
  inl, ◌||◌, ℕ, ◌≡◌, ◌⊎◌, refl, arith, true, false, if◌then◌else◌, ◌==◌, List, [],
}
use projet_s.Outcome.{ok, fault, exited}
use projet_s.Text.{codes}
use projet_s.SendIrq.{Named, select_irq, select_irq_lem}
use projet_s.Debug.{Table, empty, add_debug_to, is_debugged}
use projet_s.Debug.Search.{IsSorted, Finds, is_debugged-Finds}
use projet_s.Debug.Insert.{add_debug_to-full}
use projet_s.Debug.Set.{Represents, empty-Represents, add_debug_to-Represents}
use projet_s.Gdb.State.{GdbProtocolData, gdb_send_stop_reason, gdb_send_buffer, gdb_send_data}
use projet_s.Gdb.Commands.{read_general_registers, write_general_registers, ok_text}
use projet_s.Gdb.Commands.RoundTrip.{write_general_registers-read_general_registers}
use projet_s.Gdb.Commands.Continue.{cont}
use projet_s.Gdb.Commands.Breakpoints.{Runs, here, onward, IsBreakpoint, IsOther, cont_lem}
use projet_s.Memory.{Memory}
use projet_s.Memory.Words.{IsBytes, word_at}
use projet_s.Registers
use projet_s.Arm.{read_cpsr}
use projet_s.Arm.Pc.{fetched}
use projet_s.Instruction.{passes, condition_passed}
use projet_s.Instruction.Steps.{IsReady, current, arm_step-skipped}
use projet_s.Tests.Machine.{x86, small_machine, small_machine-IsValid, small_file}

abbrev session : GdbProtocolData
session = record { arm = small_machine; target_exception = 0; packet = []; sent = [] }

abbrev leave : GdbProtocolData → GdbProtocolData
leave gdb = gdb

write_general_registers-read_general_registers_example :
    (answer : List ℕ) × (read_general_registers x86 session [] ≡ gdb_send_buffer session answer)
    × (write_general_registers x86 session answer ≡ gdb_send_data session ok_text)
write_general_registers-read_general_registers_example =
    write_general_registers-read_general_registers x86 session [] small_machine-IsValid refl

-- An instruction whose condition fails, and a breakpoint.
abbrev cells : ℕ → ℕ
cells i = if i == 4 || i == 6 then 0xF0 else if i == 7 then 0xE7 else 0

abbrev debugged : Memory
debugged = record { m = cells; size = 16; is_big_endian = false }

cells-IsBytes : IsBytes debugged
cells-IsBytes i = ground arith

abbrev debugged_session : GdbProtocolData
debugged_session = record {
  arm = record { cycle_count = 0; reg = small_file; mem = debugged };
  target_exception = 0;
  packet = [];
  sent = [];
}

debugged-IsReady : IsReady debugged_session.arm
debugged-IsReady = record {
  aligned = refl;
  inside = omega arith;
  size_fits = omega arith;
  bytes = cells-IsBytes;
}

at_breakpoint-IsReady : IsReady (fetched debugged_session.arm)
at_breakpoint-IsReady = record {
  aligned = refl;
  inside = omega arith;
  size_fits = omega arith;
  bytes = cells-IsBytes;
}

skipped : passes (read_cpsr debugged_session.arm) (current debugged_session.arm) ≡ false
unfolding passes read_cpsr word_at condition_passed Registers.read_cpsr
skipped = refl

first_word-IsOther : IsOther (current debugged_session.arm)
unfolding word_at
first_word-IsOther = inl (omega arith)

second_word-IsBreakpoint : IsBreakpoint (current (fetched debugged_session.arm))
unfolding word_at
second_word-IsBreakpoint = (refl, refl)

abbrev stopped : GdbProtocolData
stopped = record debugged_session { arm = fetched debugged_session.arm; target_exception = 0 }

one_step : Runs x86 debugged_session 1 stopped
one_step =
    onward 0 (fetched debugged_session.arm) debugged-IsReady first_word-IsOther
      (arm_step-skipped x86 debugged_session.arm debugged-IsReady skipped) here

cont_lem_example : cont x86 2 debugged_session [] ≡ gdb_send_stop_reason stopped
cont_lem_example =
    cont_lem x86 debugged_session stopped [] 1 2 one_step at_breakpoint-IsReady
      second_word-IsBreakpoint

select_irq_lem_example :
    ((irq : ℕ)
      → (select_irq 4 (codes "interrupt") ≡ ok irq → Named irq (codes "interrupt"))
        × (Named irq (codes "interrupt") → select_irq 4 (codes "interrupt") ≡ ok irq))
    × (((irq : ℕ) → ¬ Named irq (codes "interrupt")) → select_irq 4 (codes "interrupt") ≡ exited 2)
select_irq_lem_example = select_irq_lem 4 (codes "interrupt") (omega arith)

-- A table of two names.
abbrev two_files : Table
two_files = record {
  debugged_files = λ i. if i == 0 then codes "memory.c" else codes "trace.c";
  nb_debugged_files = 2;
}

two_files-IsSorted : IsSorted two_files
two_files-IsSorted i j h k = ground arith

is_debugged-Finds_example :
    Finds two_files.debugged_files (codes "trace.c") 0 2 (is_debugged two_files (codes "trace.c"))
is_debugged-Finds_example = is_debugged-Finds two_files two_files-IsSorted (codes "trace.c")

-- A table that is full.
abbrev full : Table
full = record { debugged_files = λ i. codes "memory.c"; nb_debugged_files = 64 }

add_debug_to-full_example : add_debug_to full (codes "debug.c") ≡ fault
add_debug_to-full_example = add_debug_to-full full (codes "debug.c") refl 0 (omega arith) refl

add_debug_to-Represents_example :
    (t' : Table) × (add_debug_to empty (codes "trace.c") ≡ ok t')
    × Represents t' (λ x. (x ≡ codes "trace.c") ⊎ ⊥)
    × ((x : List ℕ)
        → ((x ≡ codes "trace.c") ⊎ ⊥ → is_debugged t' x ≡ ok true)
          × (¬ ((x ≡ codes "trace.c") ⊎ ⊥) → is_debugged t' x ≡ ok false))
add_debug_to-Represents_example =
    add_debug_to-Represents (λ name. ⊥) empty (codes "trace.c") (omega arith) empty-Represents
