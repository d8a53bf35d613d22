-- ===== src/Trace/Locations.antt =====
-- What is printed for an access to the memory under the macros of trace_location.h.
use projet_s.Common.{ℕ, ◌≡◌, refl, arith, ap, ◌==◌, nonzero, bit_and, true, to_bit, ◌∷◌}
use projet_s.Outcome.{Outcome, ok, fault, exited, unfinished, ◌>>=◌}
use projet_s.Word.{Host, add32}
use projet_s.Word.Signed.{pos}
use projet_s.Memory
use projet_s.Memory.{Memory, update}
use projet_s.Arm
use projet_s.Arm.{ArmCore}
use projet_s.Trace.{
  Trace, position, memory, position_flag, memory_flag, trace_end_location, trace_memory,
  trace_print_location,
}
use projet_s.Trace.Core
use projet_s.Trace.Core.{Traced, at_location, read, write, other_access}
use projet_s.Trace.Erased.{HasRoom, opened, trace_start_location-opened}
use projet_s.Trace.Silent.{plus-zero}
use projet_s.Trace.Accesses.{
  Access, Result, byte_read, half_read, word_read, byte_written, half_written, word_written, plain,
  perform, plus,
}

-- The trace is enabled, and shows accesses to the memory and their places.
pub record Shows (t : Trace) : Type 0 where
  pub on : t.enabled ≡ true
  pub memory_on : nonzero (bit_and t.trace_flags memory_flag) ≡ true
  pub position_on : nonzero (bit_and t.trace_flags position_flag) ≡ true

module _ (t : Trace) (file line : ℕ) (room : HasRoom t) (shows : Shows t) where
  -- The trace after an access that it showed.
  abbrev pub shown : (cycle type size address value : ℕ) → Trace
  shown cycle type size address value = record t {
    last_address = address;
    location_file_stack = update t.location_file_stack room.depth file;
    location_line_stack = update t.location_line_stack room.depth line;
    output =
        memory cycle type size other_access (to_bit (address == add32 t.last_address 4)) address
          value
        ∷ position file line
        ∷ t.output;
  }

  printed :
      (cycle type size address value : ℕ)
      → trace_memory (opened t file line room) cycle type size other_access address value
        ≡ ok (record (shown cycle type size address value) { location_stack_top = pos room.depth })
  unfolding trace_memory trace_print_location
  printed cycle type size address value =
      ground (arith, shows.on, shows.memory_on, shows.position_on, room.fits)

  closed :
      (cycle type size address value : ℕ)
      → trace_end_location
          (record (shown cycle type size address value) { location_stack_top = pos room.depth })
        ≡ (0, shown cycle type size address value)
  unfolding trace_end_location
  closed cycle type size address value = rw (shows.on, room.top) refl

  abbrev ended : Host → Result × Trace → Traced Result
  ended host r = ok (plus host r.0 (trace_end_location r.1).0, (trace_end_location r.1).1)

  -- The macro around a line, after which the result is passed on.
  abbrev lined : Host → (A : Type 0) → A → (A → Result) → ℕ → ℕ → ℕ → ℕ → ℕ → Traced Result
  lined host A a f cycle type size address value =
      trace_memory (opened t file line room) cycle type size other_access address value
      >>= (λ s. ok (a, s))
      >>= (λ (r : A × Trace). ok (f r.0, r.1))
      >>= ended host

  lined-shown :
      (host : Host) (A : Type 0) (a : A) (f : A → Result) (cycle type size address value : ℕ)
      → lined host A a f cycle type size address value
        ≡ ok (f a, shown cycle type size address value)
  lined-shown host A a f cycle type size address value =
      rw (printed cycle type size address value, closed cycle type size address value)
        (ap (λ (r : Result). ok (r, shown cycle type size address value)) (plus-zero host (f a)))

  module _ (host : Host) (p : ArmCore) where
    -- The trace shows the call with a value of it, and the call does what it does without the trace.
    pub IsShown : Access → (type size address : ℕ) → (Result → ℕ) → Type 0
    IsShown a type size address value =
        at_location t file line (plus host) (λ s. perform host s p a)
        ≡ (plain host p a >>= λ r. ok (r, shown p.cycle_count type size address (value r)))

    abbrev read_out : (ℕ × ℕ) × Trace → Traced Result
    read_out r = ok ((r.0.0, r.0.1, p), r.1)

    abbrev written_out : (ℕ × ArmCore) × Trace → Traced Result
    written_out r = ok ((r.0.0, 0, r.0.1), r.1)

    abbrev plain_read : ℕ × ℕ → Outcome Result
    plain_read r = ok (r.0, r.1, p)

    abbrev plain_written : ℕ × ArmCore → Outcome Result
    plain_written r = ok (r.0, 0, r.1)

    read_case :
        (run : Outcome (ℕ × ℕ)) (size address : ℕ)
        → at_location t file line (plus host) (λ s.
          (run >>= λ r.
          trace_memory s p.cycle_count read size other_access address r.1 >>= λ s. ok (r, s))
          >>= λ (r : (ℕ × ℕ) × Trace). ok ((r.0.0, r.0.1, p), r.1))
          ≡ (run >>= plain_read >>= λ (r : Result).
              ok (r, shown p.cycle_count read size address r.1))
    unfolding at_location
    read_case run size address =
        rw (trace_start_location-opened t file line room shows.on) (each run)
      where
        each :
            (m : Outcome (ℕ × ℕ))
            → ((m >>= λ r.
                  trace_memory
                    (opened t file line room)
                    p.cycle_count
                    read
                    size
                    other_access
                    address
                    r.1
                  >>= λ s. ok (r, s))
                >>= read_out
                >>= ended host)
              ≡ (m >>= plain_read >>= λ (r : Result).
                  ok (r, shown p.cycle_count read size address r.1))
        each fault = refl
        each (exited n) = refl
        each unfinished = refl
        each (ok r) =
            lined-shown host (ℕ × ℕ) r (λ r. (r.0, r.1, p)) p.cycle_count read size address r.1

    abbrev into : ℕ × Memory → ℕ × ArmCore
    into r = (r.0, record p { mem = r.1 })

    write_case :
        (run : Outcome (ℕ × Memory)) (size address value : ℕ)
        → at_location t file line (plus host) (λ s.
          (run >>= λ r. trace_memory s p.cycle_count write size other_access address value >>= λ s.
          ok (into r, s))
          >>= λ (r : (ℕ × ArmCore) × Trace). ok ((r.0.0, 0, r.0.1), r.1))
          ≡ (run >>= (λ r. ok (into r)) >>= plain_written >>= λ (r : Result).
              ok (r, shown p.cycle_count write size address value))
    unfolding at_location
    write_case run size address value =
        rw (trace_start_location-opened t file line room shows.on) (each run)
      where
        each :
            (m : Outcome (ℕ × Memory))
            → ((m >>= λ r.
                  trace_memory
                    (opened t file line room)
                    p.cycle_count
                    write
                    size
                    other_access
                    address
                    value
                  >>= λ s. ok (into r, s))
                >>= written_out
                >>= ended host)
              ≡ (m >>= (λ r. ok (into r)) >>= plain_written >>= λ (r : Result).
                  ok (r, shown p.cycle_count write size address value))
        each fault = refl
        each (exited n) = refl
        each unfinished = refl
        each (ok r) =
            lined-shown host (ℕ × ArmCore) (into r) (λ r. (r.0, 0, r.1)) p.cycle_count write size
              address value

    -- With the memory and the positions of the trace switched on and fewer than 128 locations open,
    -- none included, each read and write of a byte, a half word or a word under its macro prints the
    -- source location of the call and the access, with the value that the target holds afterwards or
    -- that is written, an access that aborts included, and returns and changes what it does without
    -- the trace. The locations that were open are open again.
    pub at_location-IsShown :
        (address value : ℕ)
        → IsShown (byte_read address value) read 1 address (λ r. r.1)
          × IsShown (half_read address value) read 2 address (λ r. r.1)
          × IsShown (word_read address value) read 4 address (λ r. r.1)
          × IsShown (byte_written address value) write 1 address (λ r. value)
          × IsShown (half_written address value) write 2 address (λ r. value)
          × IsShown (word_written address value) write 4 address (λ r. value)
    unfolding IsShown plain perform Core.read_byte Arm.read_byte Core.read_half Arm.read_half
        Core.read_word Arm.read_word Core.write_byte Arm.write_byte Core.write_half Arm.write_half
        Core.write_word Arm.write_word
    at_location-IsShown address value = (
      read_case (Memory.read_byte p.mem address value) 1 address,
      read_case (Memory.read_half host p.mem address value) 2 address,
      read_case (Memory.read_word host p.mem address value) 4 address,
      write_case (Memory.write_byte p.mem address value) 1 address value,
      write_case (Memory.write_half host p.mem address value) 2 address value,
      write_case (Memory.write_word host p.mem address value) 4 address value,
    )
