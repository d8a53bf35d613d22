-- ===== src/Gdb/Commands/Dumps.antt =====
-- The answer of `read_memory`.
use projet_s.Gdb.State.{gdb_transmit_packet, gdb_send_buffer, write, GdbProtocolData, frame}
use projet_s.Common.{
  length, leb, ◌*◌, ◌+◌, ℕ, zero, suc, ◌≡◌, refl, arith, ltb, if◌then◌else◌, List, [], ◌++◌,
  Bool-cases, inl, inr,
}
use projet_s.Constants.{data_abort}
use projet_s.Outcome.{fault, ok}
use projet_s.Word.{u8, Host, add32}
use projet_s.Memory.{Memory, read_byte}
use projet_s.Gdb.Hex.{print_byte}
use projet_s.Gdb.Commands.{scan_pair, read_memory, memory_text}

-- A byte read never faults: beyond the memory it aborts and leaves the value alone.
read_byte_lem :
    (mem : Memory) (a value : ℕ)
    → read_byte mem a value ≡ (if ltb a mem.size then ok (0, mem.m a) else ok (data_abort, value))
unfolding read_byte
read_byte_lem mem a value = ground arith

-- The bytes that are shown: beyond the memory, the last one that was read is shown again.
pub shown : Memory → ℕ → ℕ → ℕ → List ℕ
shown mem zero address value = []
shown mem (suc size) address value =
    let value = if ltb address mem.size then mem.m address else value in
    print_byte value ++ shown mem size (add32 address 1) value

-- The answer always shows as many bytes as were asked for: those of the memory, and beyond its end
-- the last byte that was read before.
pub memory_text-shown :
    (host : Host) (mem : Memory) (size address value : ℕ)
    → memory_text host mem size address value ≡ ok (shown mem size address value)
unfolding memory_text shown
memory_text-shown host mem zero address value = refl
memory_text-shown host mem (suc size) address value =
    let rest = memory_text-shown host mem size (add32 address 1) in
    elim (Bool-cases (ltb address mem.size))
      as (λ t.
        memory_text host mem (suc size) address value ≡ ok (shown mem (suc size) address value)) [
          | inl inside ↦ rw (read_byte_lem mem address value, inside, rest (mem.m address)) refl
          | inr outside ↦ rw (read_byte_lem mem address value, outside, rest value) refl
        ]

length-shown :
    (mem : Memory) (size address value : ℕ) → length (shown mem size address value) ≡ 2 * size
unfolding shown print_byte
length-shown mem zero address value = refl
length-shown mem (suc size) address value = omega (
  arith,
  length-shown mem size (add32 address 1) (if ltb address mem.size then mem.m address else value),
)

-- For a size up to 509 the answer of read_memory shows as many bytes as were asked for: those of the
-- memory, and beyond its end the last byte that was read before. It is sent in a frame, and nothing
-- else changes. For a larger size the answer runs past the buffer of the packet.
pub read_memory-shown :
    (host : Host) (gdb : GdbProtocolData) (text : List ℕ)
    → let (address, size) = scan_pair host text in
      let answer = frame (shown gdb.arm.mem size address (u8 host.indeterminate)) in
      read_memory host gdb text ≡ (
        if leb size 509
        then ok (record gdb { packet = answer; sent = gdb.sent ++ answer })
        else fault)
unfolding read_memory gdb_send_buffer gdb_transmit_packet write
read_memory-shown host gdb text =
    let (address, size) = scan_pair host text in
    let old = u8 host.indeterminate in
    let fits : leb (length (shown gdb.arm.mem size address old) + 5) 1024 ≡ leb size 509 =
      ground (arith, length-shown gdb.arm.mem size address old) in
    rw (memory_text-shown host gdb.arm.mem size address old, fits) refl
