-- ===== src/Tests/Traces.antt =====
-- The theorem on traced accesses, at a few of them.
use projet_s.Common.{ℕ, ◌≡◌, refl, arith, List, [], ◌∷◌}
use projet_s.Outcome.{ok, Ensures, ◌>>=◌}
use projet_s.Trace.{Trace, initial}
use projet_s.Trace.Erased.{HasRoom}
use projet_s.Trace.Prints.{SameStack}
use projet_s.Trace.Accesses.{
  NameRegisters, Access, Result, byte_read, half_read, half_written, word_written, fetched,
  register_read, byte_written, word_read, calls, plain_all, perform_all,
}
use projet_s.Trace.Silent.{perform_all-plain_all}
use projet_s.Trace.Core.{read, write}
use projet_s.Trace.Locations.{Shows, IsShown, at_location-IsShown}
use projet_s.Tests.Machine.{x86, small_machine}

-- The trace of the accesses to the registers, to the memory, and of their positions.
abbrev tracing : Trace
tracing = record initial { trace_flags = 11 }

tracing-HasRoom : HasRoom tracing
tracing-HasRoom = record { depth = 0; top = refl; fits = omega arith }

abbrev accesses : List (ℕ × ℕ × Access)
accesses =
    (1, 40, fetched 0)
    ∷ (2, 55, register_read 15)
    ∷ (2, 56, byte_written 9 7)
    ∷ (2, 57, word_read 40 3)
    ∷ []

accesses-NameRegisters : NameRegisters (calls accesses)
accesses-NameRegisters = (tt, (omega arith, (tt, (tt, tt))))

perform_all-plain_all_example :
    ((perform_all x86 tracing small_machine accesses >>= λ r. ok r.0)
      ≡ plain_all x86 small_machine (calls accesses))
    × Ensures (perform_all x86 tracing small_machine accesses) (λ r. SameStack tracing r.1)
perform_all-plain_all_example =
    perform_all-plain_all x86 tracing small_machine accesses tracing-HasRoom accesses-NameRegisters

-- The trace of the accesses to the memory and of their positions, with no location open.
abbrev showing : Trace
showing = record initial { trace_flags = 9 }

abbrev showing-HasRoom : HasRoom showing
showing-HasRoom = record { depth = 0; top = refl; fits = omega arith }

abbrev showing-Shows : Shows showing
showing-Shows = record { on = refl; memory_on = refl; position_on = refl }

abbrev Prints : Access → (type size address : ℕ) → (Result → ℕ) → Type 0
Prints = IsShown showing 3 41 showing-HasRoom showing-Shows x86 small_machine

at_location-IsShown_example :
    Prints (byte_read 8 7) read 1 8 (λ r. r.1)
    × Prints (half_read 8 7) read 2 8 (λ r. r.1)
    × Prints (word_read 8 7) read 4 8 (λ r. r.1)
    × Prints (byte_written 8 7) write 1 8 (λ r. 7)
    × Prints (half_written 8 7) write 2 8 (λ r. 7)
    × Prints (word_written 8 7) write 4 8 (λ r. 7)
at_location-IsShown_example =
    at_location-IsShown showing 3 41 showing-HasRoom showing-Shows x86 small_machine 8 7
