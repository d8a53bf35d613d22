-- ===== src/Trace/Silent.antt =====
-- Whatever is traced, the processor and the results are those without the trace.
use projet_s.Common.{◌<◌, ap, arith, ℕ, ◌≡◌, refl, ◌∙◌, List, [], ◌∷◌}
use projet_s.Outcome.{Outcome, ok, Ensures, ◌>>=◌}
use projet_s.Word.{Host, add32, sub32}
use projet_s.Memory
use projet_s.Constants.{cpsr}
use projet_s.Arm
use projet_s.Arm.{ArmCore}
use projet_s.Trace.{Trace, trace_register, trace_memory}
use projet_s.Trace.Core
use projet_s.Trace.Core.{Traced, at_location, spsr, read, write, opcode_fetch, other_access}
use projet_s.Memory.{Memory}
use projet_s.Registers.Bank.{get_mode-lt}
use projet_s.Trace.Accesses.{
  NamesRegister, NameRegisters, plus, calls, fetched, register_read, usr_register_read, cpsr_read,
  spsr_read, register_written, usr_register_written, cpsr_written, spsr_written, byte_read,
  half_read, word_read, byte_written, half_written, word_written, Access, Result, plain, perform,
  plain_all, perform_all,
}
use projet_s.Trace.Prints.{SameStack, IsReady, trace_memory-Prints}
use projet_s.Trace.Erased.{
  Erases, Erases-register, Erases-memory, Erases-read, Erases-then, Erases->>=, Erases-at_location,
  HasRoom, IsReady-same,
}

Erases-ok {ℓ} : {A : Type ℓ} (t : Trace) (a : A) → Erases t (ok a) (ok (a, t))
Erases-ok t a = record { erased = refl; balanced = record { holds = (refl, refl) } }

Erases-map {ℓ κ} :
    {A : Type ℓ} {B : Type κ} (t : Trace) (f : A → B) (run : Outcome A) (traced : Traced A)
    → Erases t run traced
    → Erases t (run >>= λ a. ok (f a)) (traced >>= λ r. ok (f r.0, r.1))
Erases-map t f run traced e =
    Erases->>= t run traced (λ a. ok (f a)) (λ r. ok (f r.0, r.1)) e λ a s same. Erases-ok s (f a)

module _ (host : Host) (t : Trace) (ready : IsReady t) (p : ArmCore) where
  value_read :
      (value reg mode : ℕ)
      → reg < 18
      → mode < 32
      → Erases {A = Result} t (ok (value, 0, p)) (
          trace_register t p.cycle_count read reg mode value
          >>= (λ t. ok (value, t))
          >>= λ (r : ℕ × Trace). ok ((r.0, 0, p), r.1))
  value_read value reg mode h k =
      Erases-map t (λ (v : ℕ). (v, 0, p)) (ok value) _
        (Erases-register t ready value p.cycle_count read reg mode value h k)

  state_written :
      (after : ArmCore) (reg mode value : ℕ)
      → reg < 18
      → mode < 32
      → Erases {A = Result} t (ok (0, 0, after)) (
          trace_register t after.cycle_count write reg mode value
          >>= (λ t. ok (after, t))
          >>= λ (r : ArmCore × Trace). ok ((0, 0, r.0), r.1))
  state_written after reg mode value h k =
      Erases-map t (λ (p : ArmCore). (0, 0, p)) (ok after) _
        (Erases-register t ready after after.cycle_count write reg mode value h k)

  target_read :
      (run : Outcome (ℕ × ℕ)) (size address : ℕ)
      → Erases {A = Result} t (run >>= λ r. ok (r.0, r.1, p)) (
          (run >>= λ r.
          trace_memory t p.cycle_count read size other_access address r.1 >>= λ t. ok (r, t))
          >>= λ (r : (ℕ × ℕ) × Trace). ok ((r.0.0, r.0.1, p), r.1))
  target_read run size address =
      Erases-map t (λ (r : ℕ × ℕ). (r.0, r.1, p)) run _
        (Erases-read t ready run (λ r. r.1) p.cycle_count read size other_access address)

  abbrev into : ℕ × Memory → ℕ × ArmCore
  into r = (r.0, record p { mem = r.1 })

  memory_written :
      (run : Outcome (ℕ × Memory)) (size address value : ℕ)
      → Erases {A = Result} t (run >>= (λ r. ok (into r)) >>= λ r. ok (r.0, 0, r.1)) (
          (run >>= λ r. trace_memory t p.cycle_count write size other_access address value >>= λ t.
          ok (into r, t))
          >>= λ (r : (ℕ × ArmCore) × Trace). ok ((r.0.0, 0, r.0.1), r.1))
  memory_written run size address value =
      Erases-map t (λ (r : ℕ × ArmCore). (r.0, 0, r.1)) (run >>= λ r. ok (into r)) _
        (Erases-memory t ready run into (λ r. value) p.cycle_count write size other_access address)

  abbrev counted : ArmCore
  counted = record p { cycle_count = add32 p.cycle_count 1 }

  -- The state after a fetch, for the program counter as it is read.
  abbrev stepped : ℕ → ArmCore
  stepped pc = Arm.write_register counted 15 (add32 (sub32 pc 4) 4)

  module _ (value : ℕ) where
    abbrev plain_rest : ℕ → Outcome Result
    plain_rest pc =
        Memory.read_word host p.mem (sub32 pc 4) value >>= λ r. ok (r.0, r.1, stepped pc)

    abbrev traced_end : ℕ → ℕ × ℕ → Trace → Traced Result
    traced_end pc r u =
        Core.write_register u counted 15 (add32 (sub32 pc 4) 4) >>= λ x. ok ((r.0, r.1, x.0), x.1)

    abbrev traced_rest : ℕ × Trace → Traced Result
    traced_rest (pc, s) = Memory.read_word host p.mem (sub32 pc 4) value >>= λ r.
        trace_memory s counted.cycle_count read 4 opcode_fetch (sub32 pc 4) r.1 >>= λ u.
        traced_end pc r u

    rest-Erases :
        (pc : ℕ) (s : Trace) → SameStack t s → Erases s (plain_rest pc) (traced_rest (pc, s))
    unfolding Core.write_register
    rest-Erases pc s same =
        let here = IsReady-same t s same ready in
        Erases-then s (Memory.read_word host p.mem (sub32 pc 4) value) _
          (λ r. ok (r.0, r.1, stepped pc)) (traced_end pc)
          (λ r. trace_memory-Prints s counted.cycle_count read 4 opcode_fetch (sub32 pc 4) r.1 here)
          λ r u more.
            Erases-map u (λ (p : ArmCore). (r.0, r.1, p)) (ok (stepped pc)) _
              (Erases-register u (IsReady-same s u more here) (stepped pc) _ write 15 _ _
                (omega arith) (get_mode-lt (stepped pc).reg))

    fetch-Erases : Erases t (Arm.fetch host p value) (Core.fetch host t p value)
    unfolding Arm.fetch Core.fetch Core.read_register
    fetch-Erases =
        Erases->>= t (ok (Arm.read_register counted 15)) _ plain_rest traced_rest
          (Erases-register t ready (Arm.read_register counted 15) _ read 15 _ _ (omega arith)
            (get_mode-lt p.reg))
          rest-Erases

  perform-Erases : (a : Access) → NamesRegister a → Erases t (plain host p a) (perform host t p a)
  unfolding plain perform
  perform-Erases (fetched value) h = fetch-Erases value
  perform-Erases (register_read reg) h =
      unfold Core.read_register in
      value_read (Arm.read_register p reg) reg _ (omega arith) (get_mode-lt p.reg)
  perform-Erases (usr_register_read reg) h =
      unfold Core.read_usr_register in
      value_read (Arm.read_usr_register p reg) reg _ (omega arith) (omega arith)
  perform-Erases cpsr_read h =
      unfold Core.read_cpsr in value_read (Arm.read_cpsr p) cpsr _ (omega arith) (omega arith)
  perform-Erases spsr_read h =
      unfold Core.read_spsr in value_read (Arm.read_spsr p) spsr _ (omega arith) (get_mode-lt p.reg)
  perform-Erases (register_written reg value) h =
      unfold Core.write_register in
      state_written (Arm.write_register p reg value) reg _ value (omega arith)
        (get_mode-lt (Arm.write_register p reg value).reg)
  perform-Erases (usr_register_written reg value) h =
      unfold Core.write_usr_register in
      state_written (Arm.write_usr_register p reg value) reg _ value (omega arith) (omega arith)
  perform-Erases (cpsr_written value) h =
      unfold Core.write_cpsr in
      state_written (Arm.write_cpsr p value) cpsr _ value (omega arith) (omega arith)
  perform-Erases (spsr_written value) h =
      unfold Core.write_spsr in
      state_written (Arm.write_spsr p value) spsr _ value (omega arith)
        (get_mode-lt (Arm.write_spsr p value).reg)
  perform-Erases (byte_read address value) h =
      unfold Core.read_byte Arm.read_byte in
      target_read (Memory.read_byte p.mem address value) 1 address
  perform-Erases (half_read address value) h =
      unfold Core.read_half Arm.read_half in
      target_read (Memory.read_half host p.mem address value) 2 address
  perform-Erases (word_read address value) h =
      unfold Core.read_word Arm.read_word in
      target_read (Memory.read_word host p.mem address value) 4 address
  perform-Erases (byte_written address value) h =
      unfold Core.write_byte Arm.write_byte in
      memory_written (Memory.write_byte p.mem address value) 1 address value
  perform-Erases (half_written address value) h =
      unfold Core.write_half Arm.write_half in
      memory_written (Memory.write_half host p.mem address value) 2 address value
  perform-Erases (word_written address value) h =
      unfold Core.write_word Arm.write_word in
      memory_written (Memory.write_word host p.mem address value) 4 address value

HasRoom-same : (t s : Trace) → SameStack t s → HasRoom t → HasRoom s
HasRoom-same t s same room = record {
  depth = room.depth;
  top = same.0 ∙ room.top;
  fits = room.fits;
}

module _ (host : Host) where
  pub plus-zero : (r : Result) → plus host r 0 ≡ r
  plus-zero (result, value, p) = ap (λ (n : ℕ). (n, value, p)) (omega arith)

  perform_all-Erases :
      (t : Trace) (p : ArmCore) (accesses : List (ℕ × ℕ × Access))
      → HasRoom t
      → NameRegisters (calls accesses)
      → Erases t (plain_all host p (calls accesses)) (perform_all host t p accesses)
  unfolding plain_all perform_all
  perform_all-Erases t p [] room named = Erases-ok t ([], p)
  perform_all-Erases t p ((file, line, a) ∷ rest) room (named, more) =
      Erases->>= t (plain host p a) (at_location t file line (plus host) (λ t. perform host t p a))
        _ _
        (Erases-at_location t file line room (plus host) (plain host p a) (λ t. perform host t p a)
          plus-zero λ s ready. perform-Erases host s ready p a named)
        λ r s same.
          Erases-map s (λ (x : List (ℕ × ℕ) × ArmCore). ((r.0, r.1) ∷ x.0, x.1))
            (plain_all host r.2 (calls rest)) _
            (perform_all-Erases s r.2 rest (HasRoom-same t s same room) more)

  -- Any calls of the functions of arm_core.c under the macros, whose registers are among the
  -- sixteen, return what they return without the trace, leave the same processor, and fault at the same access, whichever parts of the trace are
  -- switched on, if fewer than 128 locations are open; and the stack of locations is as before.
  pub perform_all-plain_all :
      (t : Trace) (p : ArmCore) (accesses : List (ℕ × ℕ × Access))
      → HasRoom t
      → NameRegisters (calls accesses)
      → ((perform_all host t p accesses >>= λ r. ok r.0) ≡ plain_all host p (calls accesses))
        × Ensures (perform_all host t p accesses) (λ r. SameStack t r.1)
  perform_all-plain_all t p accesses room named =
      let e = perform_all-Erases t p accesses room named in (e.erased, e.balanced)
