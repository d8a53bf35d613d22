-- ===== src/Trace.antt =====
-- trace.c, as it is built without ARM_TRACE_FORMAT: the switches, the stack of source locations, and
-- the lines that are printed.
pub mod Locations
pub mod Core
pub mod Prints
pub mod Erased
pub mod Accesses
pub mod Silent
pub mod Fit
pub mod Aligned
use projet_s.Common.{
  ℕ, zero, suc, ◌+◌, ◌-◌, ◌<◌, ◌==◌, ◌&&◌, Bool, true, false, ltb, leb, to_bit, nonzero, bit_and,
  bit_or, if◌then◌else◌, List, [], ◌∷◌, ◌++◌,
}
use projet_s.Outcome.{Outcome, ok, fault, ◌>>=◌}
use projet_s.Word.{add32}
use projet_s.Word.Signed.{ℤ, pos, negsuc, ◌+ℤ◌, ◌-ℤ◌, leb_ℤ}
use projet_s.Constants.Names.{arm_get_mode_name, arm_get_register_name}
use projet_s.Memory.{update}
use projet_s.Arm.{ArmCore}
use projet_s.Arm.Print.{Item, arm_print_state}

abbrev pub memory_flag : ℕ
memory_flag = 1

abbrev pub registers_flag : ℕ
registers_flag = 2

abbrev pub state_flag : ℕ
state_flag = 4

abbrev pub position_flag : ℕ
position_flag = 8

-- What a line of output shows; `seq` is whether the access is 4 bytes after the last one.
pub data Line : Type 0 where
  position : ℕ → ℕ → Line
  memory : (cycle type size cause seq address value : ℕ) → Line
  register : (cycle type reg mode value : ℕ) → Line
  state : List Item → Line

-- Files are numbers here, and `file` is the one that is written to. `output` is what has been printed, the latest line first.
pub record Trace : Type 0 where
  pub file : ℕ
  pub last_address : ℕ
  pub enabled : Bool
  pub location_file_stack : ℕ → ℕ
  pub location_line_stack : ℕ → ℕ
  pub location_stack_top : ℤ
  pub trace_flags : ℕ
  pub output : List Line

-- The static variables at the start.
abbrev pub initial : Trace
initial = record {
  file = 0;
  last_address = 0x12345678;
  enabled = true;
  location_file_stack = λ i. 0;
  location_line_stack = λ i. 0;
  location_stack_top = negsuc 0;
  trace_flags = 0;
  output = [];
}

abbrev stack_size : ℕ
stack_size = 128

-- An access outside the two stacks is `fault`.
abbrev at : ℤ → (ℕ → Outcome Trace) → Outcome Trace
at (pos n) f = if ltb n stack_size then f n else fault
at (negsuc n) f = fault

unfoldable pub trace_start_location : Trace → ℕ → ℕ → Outcome Trace
trace_start_location t file line =
    if t.enabled
    then (let top = t.location_stack_top +ℤ pos 1 in
        at top λ i. ok (record t {
          location_stack_top = top;
          location_file_stack = update t.location_file_stack i file;
          location_line_stack = update t.location_line_stack i line;
        }))
    else ok t

-- What it returns, and the state.
unfoldable pub trace_end_location : Trace → ℕ × Trace
trace_end_location t =
    (0, if t.enabled then record t { location_stack_top = t.location_stack_top -ℤ pos 1 } else t)

abbrev print : Trace → Line → Trace
print t line = record t { output = line ∷ t.output }

unfoldable pub trace_print_location : Trace → Outcome Trace
trace_print_location t =
    if t.enabled
      && nonzero (bit_and t.trace_flags position_flag)
      && leb_ℤ (pos 0) t.location_stack_top
    then (at t.location_stack_top
        λ i. ok (print t (position (t.location_file_stack i) (t.location_line_stack i))))
    else ok t

unfoldable pub trace_memory : Trace → (cycle type size cause address value : ℕ) → Outcome Trace
unfolding trace_print_location
trace_memory t cycle type size cause address value =
    if t.enabled && nonzero (bit_and t.trace_flags memory_flag)
    then (let seq = to_bit (address == add32 t.last_address 4) in
        do
          t ← trace_print_location (record t { last_address = address })
          ok (print t (memory cycle type size cause seq address value)))
    else ok t

-- The names are read from the tables of arm_constants.c, and a line keeps the numbers.
unfoldable pub trace_register : Trace → (cycle type reg mode value : ℕ) → Outcome Trace
unfolding trace_print_location
trace_register t cycle type reg mode value =
    if t.enabled && nonzero (bit_and t.trace_flags registers_flag)
    then (do
      mode_name ← arm_get_mode_name mode
      t ← trace_print_location t
      name ← arm_get_register_name reg
      ok (print t (register cycle type reg mode value)))
    else ok t

unfoldable pub trace_arm_state : Trace → ArmCore → Outcome Trace
trace_arm_state t p =
    if t.enabled && nonzero (bit_and t.trace_flags state_flag)
    then (do items ← arm_print_state p; ok (print t (state items)))
    else ok t

unfoldable pub set_trace_file : Trace → ℕ → Trace
set_trace_file t file = record t { file = file }

unfoldable pub trace_disable : Trace → Trace
trace_disable t = record t { enabled = false }

unfoldable pub trace_enable : Trace → Trace
trace_enable t = record t { enabled = true }

unfoldable pub trace_add : Trace → ℕ → Trace
trace_add t flags = record t { trace_flags = bit_or t.trace_flags flags }
