-- ===== src/Trace/Prints.antt =====
-- The lines of the trace: printing them succeeds while the open locations fit their stack.
use projet_s.Constants.Names.{arm_get_mode_name-inside, arm_get_register_name-inside}
use projet_s.Common.{
  ℕ, ◌<◌, ◌≡◌, refl, arith, Bool, nonzero, bit_and, ◌&&◌, if◌then◌else◌, ◌∷◌, true, false, ◌==◌,
  to_bit, ◌⊎◌, inl, inr,
}
use projet_s.Outcome.{Outcome, ok}
use projet_s.Word.{add32}
use projet_s.Word.Signed.{leb_ℤ, pos}
use projet_s.Trace.{
  register, memory, position, memory_flag, position_flag, registers_flag, Trace, trace_register,
  trace_memory, trace_print_location,
}

-- The same open locations, and the same switch.
abbrev pub SameStack : Trace → Trace → Type 0
SameStack t t' = (t'.location_stack_top ≡ t.location_stack_top) × (t'.enabled ≡ t.enabled)

-- The number of open locations, after the first one, which has to be in the stack.
pub record IsOpen (t : Trace) : Type 0 where
  pub depth : ℕ
  pub top : t.location_stack_top ≡ pos depth
  pub fits : depth < 128

-- A trace that can print: nothing is printed while it is disabled.
abbrev pub IsReady : Trace → Type 0
IsReady t = (t.enabled ≡ false) ⊎ IsOpen t

-- The run succeeds, and leaves the stack as it is.
abbrev pub Prints : Trace → Outcome Trace → Type 0
Prints t run = (t' : Trace) × (run ≡ ok t') × SameStack t t'

Prints-if :
    (t : Trace) {run other : Outcome Trace} (b : Bool)
    → Prints t run
    → Prints t other
    → Prints t (if b then run else other)
Prints-if t true x y = x
Prints-if t false x y = y

trace_print_location-Prints : (t : Trace) → IsOpen t → Prints t (trace_print_location t)
unfolding trace_print_location
trace_print_location-Prints t here =
    Prints-if t
      (t.enabled
        && nonzero (bit_and t.trace_flags position_flag)
        && leb_ℤ (pos 0) t.location_stack_top)
      (
        record t {
          output =
              position (t.location_file_stack here.depth) (t.location_line_stack here.depth)
              ∷ t.output;
        },
        rw (here.top) (ground (arith, here.fits)),
        (refl, refl),
      )
      (t, refl, (refl, refl))

pub trace_register-Prints :
    (t : Trace) (cycle type reg mode value : ℕ)
    → reg < 18
    → mode < 32
    → IsReady t
    → Prints t (trace_register t cycle type reg mode value)
unfolding trace_register
trace_register-Prints t cycle type reg mode value h k (inl off) = (t, rw off refl, (refl, refl))
trace_register-Prints t cycle type reg mode value h k (inr here) =
    let (mode_name, m) = arm_get_mode_name-inside mode k in
    let (name, n) = arm_get_register_name-inside reg h in
    let (t', run, same) = trace_print_location-Prints t here in
    Prints-if t (t.enabled && nonzero (bit_and t.trace_flags registers_flag))
      (
        record t' { output = register cycle type reg mode value ∷ t'.output },
        rw (m, run, n) refl,
        same,
      )
      (t, refl, (refl, refl))

pub trace_memory-Prints :
    (t : Trace) (cycle type size cause address value : ℕ)
    → IsReady t
    → Prints t (trace_memory t cycle type size cause address value)
unfolding trace_memory
trace_memory-Prints t cycle type size cause address value (inl off) = (t, rw off refl, (refl, refl))
trace_memory-Prints t cycle type size cause address value (inr here) =
    let (t', run, same) =
      trace_print_location-Prints (record t { last_address = address })
        (record { depth = here.depth; top = here.top; fits = here.fits }) in
    Prints-if t (t.enabled && nonzero (bit_and t.trace_flags memory_flag))
      (
        record t' {
          output =
              memory cycle type size cause (to_bit (address == add32 t.last_address 4)) address
                value
              ∷ t'.output;
        },
        rw run refl,
        same,
      )
      (t, refl, (refl, refl))
