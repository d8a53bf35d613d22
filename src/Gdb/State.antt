-- ===== src/Gdb/State.antt =====
-- The state of a connection, and the answers that are sent over it.
use projet_s.Common.{ℕ, ◌+◌, ◌==◌, ◌||◌, leb, length, if◌then◌else◌, List, [], ◌∷◌, ◌++◌}
use projet_s.Constants.{undefined_instruction, prefetch_abort, data_abort}
use projet_s.Outcome.{Outcome, ok, fault}
use projet_s.Word.{u8}
use projet_s.Arm.{ArmCore}
use projet_s.Gdb.Hex.{print_byte}

-- `mem` is the memory of `arm`, as arm_simulator.c passes it. `packet` is the text in the buffer,
-- and `sent` what has been written to the socket.
pub record GdbProtocolData : Type 0 where
  pub arm : ArmCore
  pub target_exception : ℕ
  pub packet : List ℕ
  pub sent : List ℕ

abbrev max_packet_size : ℕ
max_packet_size = 1024

unfoldable pub gdb_init_data : ArmCore → GdbProtocolData
gdb_init_data arm = record { arm = arm; target_exception = 0; packet = []; sent = [] }

-- Rio_writen
unfoldable pub write : GdbProtocolData → List ℕ → GdbProtocolData
write gdb text = record gdb { sent = gdb.sent ++ text }

-- The characters + and -.
unfoldable pub gdb_send_ack : GdbProtocolData → GdbProtocolData
unfolding write
gdb_send_ack gdb = write gdb (0x2B ∷ [])

unfoldable pub gdb_require_retransmission : GdbProtocolData → GdbProtocolData
unfolding write
gdb_require_retransmission gdb = write gdb (0x2D ∷ [])

unfoldable pub gdb_transmit_packet : GdbProtocolData → GdbProtocolData
unfolding write
gdb_transmit_packet gdb = write gdb gdb.packet

-- The sum of characters in an `unsigned char`.
unfoldable pub add_all : List ℕ → ℕ → ℕ
add_all [] check = check
add_all (c ∷ cs) check = add_all cs (u8 (check + c))

-- The text between the characters $ and #, and the sum of its characters.
unfoldable pub frame : List ℕ → List ℕ
unfolding add_all
frame text = 0x24 ∷ (text ++ (0x23 ∷ print_byte (add_all text 0)))

-- The sum and the end of the string come after the text, in the same buffer.
unfoldable pub gdb_send_buffer : GdbProtocolData → List ℕ → Outcome GdbProtocolData
unfolding frame gdb_transmit_packet
gdb_send_buffer gdb text =
    if leb (length text + 5) max_packet_size
    then ok (gdb_transmit_packet (record gdb { packet = frame text }))
    else fault

unfoldable pub gdb_send_data : GdbProtocolData → List ℕ → Outcome GdbProtocolData
unfolding gdb_send_buffer
gdb_send_data gdb text = gdb_send_buffer gdb text

-- S04, S10 and S05.
unfoldable pub gdb_send_stop_reason : GdbProtocolData → Outcome GdbProtocolData
unfolding gdb_send_data
gdb_send_stop_reason gdb =
    if gdb.target_exception == undefined_instruction
    then gdb_send_data gdb (0x53 ∷ 0x30 ∷ 0x34 ∷ [])
    else if gdb.target_exception == prefetch_abort || gdb.target_exception == data_abort
    then gdb_send_data gdb (0x53 ∷ 0x31 ∷ 0x30 ∷ [])
    else gdb_send_data gdb (0x53 ∷ 0x30 ∷ 0x35 ∷ [])
