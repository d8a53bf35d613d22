-- ===== src/Gdb/Commands/Valid.antt =====
-- The handlers for registers, memory and single steps keep the processor well-formed.
use projet_s.Common.{
  ℕ, zero, suc, ◌+◌, ◌^◌, ◌<◌, ◌≡◌, arith, ◌==◌, ltb, if◌then◌else◌, List, [], ◌∷◌, bit_xor, sym,
  ◌∙◌,
}
use projet_s.Outcome.{Ensures, Ensures->>=, Ensures-if, Ensures-ok, Ensures-itself, Ensures-weaken}
use projet_s.Word.{Host, u8, add32}
use projet_s.Memory
use projet_s.Memory.{Memory, update}
use projet_s.Arm
use projet_s.Arm.{ArmCore}
use projet_s.Arm.Valid.{IsValid, write_cpsr-IsValid, set_mem-IsValid, write_byte-Kept}
use projet_s.Instruction.Valid.{arm_step-IsValid}
use projet_s.Gdb.State.{GdbProtocolData}
use projet_s.Gdb.Packet.{scan_number}
use projet_s.Gdb.Commands.{
  read_general_registers, read_memory, step, write_registers, write_general_registers,
  write_content, write_memory_binary, write_register, after_char, scan_pair, memory_text,
}
use projet_s.Gdb.Uint32.{integer_of, bytes_of, first_byte, read_bytes, read_uint32}
use projet_s.Gdb.Sending.{
  Keeps, gdb_send_buffer-IsValid, gdb_send_data-IsValid, gdb_send_stop_reason-IsValid,
}

module _ (host : Host) where
  read_bytes-lt :
      (n i step : ℕ) (text : List ℕ) (bytes : ℕ → ℕ) (value : ℕ)
      → ((j : ℕ) → bytes j < 2 ^ 8)
      → (j : ℕ) → read_bytes host n i step text bytes value j < 2 ^ 8
  unfolding read_bytes
  read_bytes-lt zero i step text bytes value h j = h j
  read_bytes-lt (suc n) i step text bytes value h j =
      read_bytes-lt n _ step _ _ _ (λ k. ground (arith, h k)) j

  bytes_of-lt : (v i : ℕ) → bytes_of host v i < 2 ^ 8
  unfolding bytes_of
  bytes_of-lt v i = ground arith

  integer_of-lt : (bytes : ℕ → ℕ) → ((i : ℕ) → bytes i < 2 ^ 8) → integer_of host bytes < 2 ^ 32
  unfolding integer_of
  integer_of-lt bytes h = ground (arith, h 0, h 1, h 2, h 3)

  pub read_uint32-lt : (text : List ℕ) → read_uint32 host text < 2 ^ 32
  unfolding read_uint32
  read_uint32-lt text = integer_of-lt _ (
      read_bytes-lt 4 (first_byte host).0 (first_byte host).1 text _ host.indeterminate
        (bytes_of-lt host.indeterminate))

  module _ (size : ℕ) where
    write_registers-IsValid :
        (n i : ℕ) (position : List ℕ) (p : ArmCore)
        → IsValid size p
        → IsValid size (write_registers host p n i position).0
    unfolding write_registers
    write_registers-IsValid zero i position p valid = valid
    write_registers-IsValid (suc n) i position p valid =
        write_registers-IsValid n (i + 1) _ _
          (Arm.Valid.write_register-IsValid valid i _ (read_uint32-lt position))

    pub write_general_registers-IsValid :
        (gdb : GdbProtocolData) (text : List ℕ)
        → IsValid size gdb.arm
        → Keeps size (write_general_registers host gdb text)
    unfolding write_general_registers
    write_general_registers-IsValid gdb text valid =
        gdb_send_data-IsValid size _
          (write_cpsr-IsValid (write_registers-IsValid 16 0 text gdb.arm valid) _
            (read_uint32-lt _))
          _

    pub write_register-IsValid :
        (gdb : GdbProtocolData) (text : List ℕ)
        → IsValid size gdb.arm
        → Keeps size (write_register host gdb text)
    unfolding write_register
    write_register-IsValid gdb text valid =
        Ensures->>= (Ensures-itself (after_char 0x3D text)) λ rest e.
          Ensures-if (ltb (scan_number text host.indeterminate) 16)
            (gdb_send_data-IsValid size _
              (Arm.Valid.write_register-IsValid valid _ _ (read_uint32-lt rest)) _)
            (record { holds = tt })

    -- The cells are bytes, and there are as many as before.
    record Content (mem : Memory) : Type 0 where
      cells : (i : ℕ) → mem.m i < 2 ^ 8
      as_many : mem.size ≡ size

    stored :
        (mem : Memory) (address v : ℕ)
        → Content mem
        → Ensures (Memory.write_byte mem address v) (λ r. Content r.1)
    stored mem address v h =
        Ensures-weaken (write_byte-Kept host mem h.cells address v)
          λ r (cells, same). record { cells = cells; as_many = same ∙ h.as_many }

    write_content-Content :
        (n : ℕ) (mem : Memory) (address : ℕ) (content : List ℕ)
        → Content mem
        → Ensures (write_content host mem n address content) (λ r. Content r.1)
    unfolding write_content
    write_content-Content zero mem address content h = Ensures-ok h
    write_content-Content (suc n) mem address [] h = record { holds = tt }
    write_content-Content (suc n) mem address (c ∷ []) h =
        Ensures-if (c == 0x7D) (record { holds = tt })
          (Ensures->>= (stored mem address c h) λ (result, mem') k.
            Ensures-if (result == 0) (write_content-Content n mem' (add32 address 1) [] k)
              (Ensures-ok k))
    write_content-Content (suc n) mem address (c ∷ d ∷ cs) h =
        Ensures->>= (stored mem address (if c == 0x7D then bit_xor d 0x20 else c) h)
          λ (result, mem') k.
            Ensures-if (result == 0)
              (write_content-Content n mem' (add32 address 1) (if c == 0x7D then cs else d ∷ cs) k)
              (Ensures-ok k)

    pub write_memory_binary-IsValid :
        (gdb : GdbProtocolData) (text : List ℕ)
        → IsValid size gdb.arm
        → Keeps size (write_memory_binary host gdb text)
    unfolding write_memory_binary
    write_memory_binary-IsValid gdb text valid =
        let here : Content gdb.arm.mem = record {
          cells = valid.bytes;
          as_many = valid.same_size;
        } in
        Ensures->>= (Ensures-itself (after_char 0x3A text)) λ content e.
          Ensures->>=
            (Ensures-if (ltb (scan_pair host text).0 (Memory.get_size gdb.arm.mem))
              (write_content-Content (scan_pair host text).1 gdb.arm.mem (scan_pair host text).0
                content here)
              (Ensures-ok here))
            λ (write_ok, mem') k.
              gdb_send_data-IsValid size _
                (set_mem-IsValid valid mem' k.cells (k.as_many ∙ sym valid.same_size)) _

    pub read_general_registers-IsValid :
        (gdb : GdbProtocolData) (text : List ℕ)
        → IsValid size gdb.arm
        → Keeps size (read_general_registers host gdb text)
    unfolding read_general_registers
    read_general_registers-IsValid gdb text valid = gdb_send_buffer-IsValid size gdb valid _

    pub read_memory-IsValid :
        (gdb : GdbProtocolData) (text : List ℕ)
        → IsValid size gdb.arm
        → Keeps size (read_memory host gdb text)
    unfolding read_memory
    read_memory-IsValid gdb text valid =
        Ensures->>=
          (Ensures-itself (
            memory_text host gdb.arm.mem (scan_pair host text).1 (scan_pair host text).0
              (u8 host.indeterminate)))
          λ answer e. gdb_send_buffer-IsValid size gdb valid answer

    pub step-IsValid :
        host.indeterminate < 2 ^ 32
        → (gdb : GdbProtocolData) (text : List ℕ) → IsValid size gdb.arm
        → Keeps size (step host gdb text)
    unfolding step
    step-IsValid h gdb text valid =
        Ensures->>= (arm_step-IsValid host h valid)
          λ (result, p) still. gdb_send_stop_reason-IsValid size _ still
