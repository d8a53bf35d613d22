-- ===== src/Gdb/Commands.antt =====
-- The handlers of gdb_protocol.c for registers, memory and single steps. The calls that switch
-- tracing off and on and the debug output are left out.
pub mod Dumps
pub mod Queries
pub mod Continue
pub mod Breakpoints
pub mod RoundTrip
pub mod Binary
pub mod Valid
use projet_s.Common.{
  ℕ, zero, suc, ◌+◌, ◌-◌, ◌*◌, ◌/◌, ◌%◌, ◌^◌, ◌<◌, ◌==◌, ◌&&◌, ◌||◌, not, Bool, true, false, ltb,
  leb, length, drop, if◌then◌else◌, List, [], ◌∷◌, ◌++◌, Option, none, some, bit_xor, nonzero,
}
use projet_s.Constants.{pc}
use projet_s.Outcome.{Outcome, ok, fault, ◌>>=◌}
use projet_s.Word.{Host, u8, add32, sub32, all_ones}
use projet_s.Memory
use projet_s.Memory.{Memory}
use projet_s.Arm
use projet_s.Arm.{ArmCore}
use projet_s.Instruction.{arm_step}
use projet_s.Gdb.Hex.{digit_value, print_byte}
use projet_s.Gdb.Uint32.{read_uint32, write_uint32}
use projet_s.Gdb.State.{GdbProtocolData, gdb_send_buffer, gdb_send_data, gdb_send_stop_reason}
use projet_s.Gdb.Packet.{scan_number}

-- What follows the digits at the start.
unfoldable pub after_digits : List ℕ → List ℕ
after_digits [] = []
after_digits (c ∷ cs) = elim (digit_value c) [ some d ↦ after_digits cs | none ↦ c ∷ cs ]

-- index(cs, c) + 1; NULL + 1 is no address.
unfoldable pub after_char : ℕ → List ℕ → Outcome (List ℕ)
after_char c [] = fault
after_char c (d ∷ cs) = let rest = after_char c cs in if d == c then ok cs else rest

-- The answers OK and E02.
abbrev pub ok_text : List ℕ
ok_text = 0x4F ∷ 0x4B ∷ []

abbrev e02_text : List ℕ
e02_text = 0x45 ∷ 0x30 ∷ 0x32 ∷ []

-- n times "xxxxxxxx".
unfoldable pub unknown : ℕ → List ℕ
unknown zero = []
unknown (suc n) = 0x78 ∷ 0x78 ∷ 0x78 ∷ 0x78 ∷ 0x78 ∷ 0x78 ∷ 0x78 ∷ 0x78 ∷ unknown n

module _ (host : Host) where
  -- sscanf(cs, "%x,%x", &address, &size)
  unfoldable pub scan_pair : List ℕ → ℕ × ℕ
  scan_pair cs = (
    scan_number cs host.indeterminate,
    elim (after_digits cs) [
      | [] ↦ host.indeterminate
      | c ∷ ds ↦ if c == 0x2C then scan_number ds host.indeterminate else host.indeterminate
    ],
  )

  -- n registers from i on.
  unfoldable pub registers_text : ArmCore → ℕ → ℕ → List ℕ
  registers_text p zero i = []
  registers_text p (suc n) i =
      write_uint32 host (Arm.read_register p i) ++ registers_text p n (i + 1)

  -- The eight floating point registers take three words each, and their status another.
  unfoldable pub read_general_registers : GdbProtocolData → List ℕ → Outcome GdbProtocolData
  unfolding registers_text unknown
  read_general_registers gdb text = gdb_send_buffer gdb (
      registers_text gdb.arm 15 0
      ++ (write_uint32 host (sub32 (Arm.read_register gdb.arm 15) 4)
          ++ (unknown 24 ++ (unknown 1 ++ write_uint32 host (Arm.read_cpsr gdb.arm)))))

  -- The loop of `read_memory`; `size` counts down, and `value` keeps its value when a read aborts.
  unfoldable pub memory_text : Memory → ℕ → ℕ → ℕ → Outcome (List ℕ)
  memory_text mem zero address value = ok []
  memory_text mem (suc size) address value = do
    (result, value) ← Memory.read_byte mem address value
    if result == all_ones
        then ok []
        else memory_text mem size (add32 address 1) value >>= λ rest. ok (print_byte value ++ rest)

  unfoldable pub read_memory : GdbProtocolData → List ℕ → Outcome GdbProtocolData
  unfolding scan_pair memory_text
  read_memory gdb text =
      let (address, size) = scan_pair text in
      do
        answer ← memory_text gdb.arm.mem size address (u8 host.indeterminate)
        gdb_send_buffer gdb answer

  unfoldable pub reason : GdbProtocolData → List ℕ → Outcome GdbProtocolData
  reason gdb text = gdb_send_stop_reason gdb

  unfoldable pub step : GdbProtocolData → List ℕ → Outcome GdbProtocolData
  step gdb text = do
    (result, p) ← arm_step host gdb.arm
    gdb_send_stop_reason (record gdb { arm = p; target_exception = result })

  -- n registers from i on, and what follows them.
  unfoldable pub write_registers : ArmCore → ℕ → ℕ → List ℕ → ArmCore × List ℕ
  write_registers p zero i position = (p, position)
  write_registers p (suc n) i position =
      write_registers (Arm.write_register p i (read_uint32 host position)) n (i + 1)
        (drop 8 position)

  -- The 25 words between the registers and the status word are read and not used.
  unfoldable pub write_general_registers : GdbProtocolData → List ℕ → Outcome GdbProtocolData
  unfolding write_registers
  write_general_registers gdb text =
      let (p, position) = write_registers gdb.arm 16 0 text in
      let p = Arm.write_cpsr p (read_uint32 host (drop 200 position)) in
      gdb_send_data (record gdb { arm = p }) ok_text

  -- The loop of `write_memory_binary`: the status and the memory. A packet that is shorter than it
  -- says has no meaning here.
  unfoldable pub write_content : Memory → ℕ → ℕ → List ℕ → Outcome (Bool × Memory)
  write_content mem zero address content = ok (true, mem)
  write_content mem (suc n) address [] = fault
  write_content mem (suc n) address (c ∷ []) = if c == 0x7D then fault else do
    (result, mem) ← Memory.write_byte mem address c
    if result == 0 then write_content mem n (add32 address 1) [] else ok (false, mem)
  write_content mem (suc n) address (c ∷ d ∷ cs) =
      let escaped = c == 0x7D in
      do
        (result, mem) ← Memory.write_byte mem address (if escaped then bit_xor d 0x20 else c)
        if result == 0
            then write_content mem n (add32 address 1) (if escaped then cs else d ∷ cs)
            else ok (false, mem)

  unfoldable pub write_memory_binary : GdbProtocolData → List ℕ → Outcome GdbProtocolData
  unfolding scan_pair write_content
  write_memory_binary gdb text =
      let (address, size) = scan_pair text in
      do
        content ← after_char 0x3A text
        let mem = gdb.arm.mem
        (write_ok, mem) ←
            (if ltb address (Memory.get_size mem)
              then write_content mem size address content
              else ok (false, mem))
        let gdb = record gdb { arm = record gdb.arm { mem = mem } }
        gdb_send_data gdb (if write_ok then ok_text else e02_text)

  -- A failed assertion ends the process; nothing is defined after it.
  unfoldable pub write_register : GdbProtocolData → List ℕ → Outcome GdbProtocolData
  write_register gdb text =
      let reg = scan_number text host.indeterminate in
      do
        text ← after_char 0x3D text
        let value = read_uint32 host text
        if ltb reg 16
            then gdb_send_data (record gdb { arm = Arm.write_register gdb.arm reg value }) ok_text
            else fault
