-- ===== src/Simulator.antt =====
-- arm_simulator.c: the options, the start of the processor, and the two threads that act on it. The
-- sockets are those of Simulator/Server.
pub mod Threads
pub mod Server
pub mod Main
use projet_s.Common.{ℕ, ◌*◌, ◌^◌, ◌==◌, to_bit, if◌then◌else◌, List, [], ◌∷◌, Option, none, some}
use projet_s.Outcome.{Outcome, ok, exited, ◌>>=◌}
use projet_s.Word.{Host, u16}
use projet_s.Text.{atoi, pattern32}
use projet_s.Trace
use projet_s.Trace.{
  Trace, trace_add, set_trace_file, memory_flag, registers_flag, state_flag, position_flag,
}
use projet_s.Debug
use projet_s.Debug.{Table, add_debug_to}
use projet_s.Memory
use projet_s.Memory.{Memory}
use projet_s.Registers.{Registers}
use projet_s.Arm.{ArmCore}
use projet_s.Exception.{arm_create}

-- What the options set. A file is a number, and `stdout` is 1.
pub record Options : Type 0 where
  pub gdb_port : ℕ
  pub irq_port : ℕ
  pub trace_file : ℕ
  pub trace : Trace
  pub debugged : Table

abbrev pub default_options : Options
default_options = record {
  gdb_port = 0;
  irq_port = 0;
  trace_file = 1;
  trace = Trace.initial;
  debugged = Debug.empty;
}

-- atoi(optarg) in an `in_port_t`.
abbrev pub port : List ℕ → Outcome ℕ
port optarg = do number ← atoi optarg; ok (u16 (pattern32 number))

module _ (fopen : List ℕ → Option ℕ) where
  -- One round of the loop of `main`, for what `getopt_long` returns: g, i, h, t, r, m, s, p, d, or
  -- another character.
  unfoldable pub set_option : Options → ℕ → List ℕ → Outcome Options
  set_option options opt optarg =
      if opt == 0x67
      then (port optarg >>= λ n. ok (record options { gdb_port = n }))
      else if opt == 0x69
      then (port optarg >>= λ n. ok (record options { irq_port = n }))
      else if opt == 0x68
      then exited 0
      else if opt == 0x74
      then elim (fopen optarg) [
        | some file ↦ ok (record options { trace_file = file })
        | none ↦ exited 1
      ]
      else if opt == 0x72
      then ok (record options { trace = trace_add options.trace registers_flag })
      else if opt == 0x6D
      then ok (record options { trace = trace_add options.trace memory_flag })
      else if opt == 0x73
      then ok (record options { trace = trace_add options.trace state_flag })
      else if opt == 0x70
      then ok (record options { trace = trace_add options.trace position_flag })
      else if opt == 0x64
      then (add_debug_to options.debugged optarg >>= λ t. ok (record options { debugged = t }))
      else exited 1

  -- The loop, over all that `getopt_long` returns.
  unfoldable pub set_options : Options → List (ℕ × List ℕ) → Outcome Options
  unfolding set_option
  set_options options [] = ok options
  set_options options ((opt, optarg) ∷ rest) = do
    options ← set_option options opt optarg
    set_options options rest

-- The trace that `main` starts with: the file is set after the options.
unfoldable pub start_trace : Options → Trace
start_trace options = set_trace_file options.trace options.trace_file

-- The memory and the processor of `main`; `contents` and `registers` are what `malloc` finds.
unfoldable pub start : Host → Registers → (ℕ → ℕ) → ArmCore
start host registers contents =
    arm_create registers (Memory.create contents 0x20000 (to_bit host.big_endian_simulator))
