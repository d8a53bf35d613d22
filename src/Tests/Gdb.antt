-- ===== src/Tests/Gdb.antt =====
-- The theorems on gdb_protocol.c at small texts.
use projet_s.Gdb.State.{GdbProtocolData, frame}
use projet_s.Text.{codes}
use projet_s.Word.{u8}
use projet_s.Common.{List, ℕ, ◌≡◌, [], ◌∷◌, Option, none}
use projet_s.Outcome.{ok}
use projet_s.Gdb.Hex.{digit_value}
use projet_s.Gdb.Packet.{Handler, scan_number}
use projet_s.Gdb.Commands.{after_digits, scan_pair, read_memory}
use projet_s.Gdb.Commands.Dumps.{shown, read_memory-shown}
use projet_s.Tests.Machine.{x86, memory, small_machine}

abbrev no_handler : ℕ → Option Handler
no_handler c = none

-- Four bytes, of which two lie beyond the memory.
abbrev session : GdbProtocolData
session = record { arm = small_machine; target_exception = 0; packet = []; sent = [] }

abbrev answer : List ℕ
answer = frame (shown memory 4 14 (u8 0))

read_memory-shown_example :
    read_memory x86 session (codes "e,4") ≡ ok (record session { packet = answer; sent = answer })
unfolding scan_pair after_digits digit_value scan_number
read_memory-shown_example = read_memory-shown x86 session (codes "e,4")

-- The bytes of "#A}", the first and the last of which are escaped.
abbrev three_bytes : List ℕ
three_bytes = 0x23 ∷ 0x41 ∷ 0x7D ∷ []
