-- ===== src/Gdb/Commands/Queries.antt =====
-- The handlers of gdb_protocol.c that answer with a fixed text or with one register.
use projet_s.Common.{ap, ◌≡◌, ◌≤◌, ℕ, ◌==◌, ◌||◌, ◌&&◌, ltb, if◌then◌else◌, List, [], ◌∷◌}
use projet_s.Outcome.{Outcome, fault, ◌>>=◌}
use projet_s.Word.{Host, sub32}
use projet_s.Word.Signed.{ℤ, pos, negsuc, ltb_ℤ}
use projet_s.Text.{atoi_letter, codes, same_text, starts_with, atoi, pattern32}
use projet_s.Arm
use projet_s.Gdb.State.{GdbProtocolData, gdb_send_buffer, gdb_send_data}
use projet_s.Gdb.Uint32.{write_uint32}
use projet_s.Gdb.Commands.{ok_text}

abbrev pub offsets : List ℕ
offsets = codes "Offsets"

abbrev pub supported : List ℕ
supported = codes "Supported"

abbrev pub t_status : List ℕ
t_status = codes "TStatus"

abbrev pub symbol : List ℕ
symbol = codes "Symbol::"

abbrev pub sections : List ℕ
sections = codes "Text=0;Data=0;Bss=0"

abbrev pub packet_size : List ℕ
packet_size = codes "PacketSize=400"

abbrev pub not_run : List ℕ
not_run = codes "T0;tnotrun:0"

abbrev pub e01_text : List ℕ
e01_text = codes "E01"

unfoldable pub query : GdbProtocolData → List ℕ → Outcome GdbProtocolData
query gdb text =
    if same_text text offsets
    then gdb_send_data gdb sections
    else if starts_with supported text
    then gdb_send_data gdb packet_size
    else if same_text text t_status
    then gdb_send_data gdb not_run
    else if same_text text symbol
    then gdb_send_data gdb []
    else gdb_send_data gdb []

-- The number of a register is read in decimal, and a failed assertion ends the process.
unfoldable pub read_register : Host → GdbProtocolData → List ℕ → Outcome GdbProtocolData
read_register host gdb text = do
  number ← atoi text
  let reg = pattern32 number
  if ltb reg 16
      then gdb_send_buffer gdb
          (write_uint32 host (sub32 (Arm.read_register gdb.arm reg) (if reg == 15 then 4 else 0)))
      else fault

-- The text is the type of the request, c or g, and a number; without a type nothing matches.
unfoldable pub set_thread : GdbProtocolData → List ℕ → Outcome GdbProtocolData
set_thread gdb [] = gdb_send_data gdb e01_text
set_thread gdb (type ∷ text) = do
  value ← atoi text
  if (type == 0x63 || type == 0x67) && (ltb_ℤ value (pos 1) && ltb_ℤ (negsuc 1) value)
      then gdb_send_data gdb ok_text
      else gdb_send_data gdb e01_text

-- The protocol gives the numbers of r10 to r15 as the digits a to f; for each of them the answer is
-- that for r0.
pub read_register_letter :
    (host : Host) (gdb : GdbProtocolData) (c : ℕ)
    → 0x61 ≤ c
    → c ≤ 0x66
    → read_register host gdb (c ∷ []) ≡ read_register host gdb (codes "0")
unfolding read_register atoi
read_register_letter host gdb c h k = ap (answer host gdb) (atoi_letter c [] h k)
  where
    answer : Host → GdbProtocolData → Outcome ℤ → Outcome GdbProtocolData
    answer host gdb run = run >>= λ number.
        let reg = pattern32 number in
        if ltb reg 16
        then gdb_send_buffer gdb
            (write_uint32 host (sub32 (Arm.read_register gdb.arm reg) (if reg == 15 then 4 else 0)))
        else fault
