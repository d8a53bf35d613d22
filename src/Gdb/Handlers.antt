-- ===== src/Gdb/Handlers.antt =====
-- The table of handlers that `gdb_init` fills, and `kill_request`, which closes the connection for
-- writing by the operating system's `shutdown`, a parameter.
use projet_s.Common.{ℕ, ◌==◌, if◌then◌else◌, List, Option, none, some}
use projet_s.Outcome.{Outcome, ok}
use projet_s.Word.{Host}
use projet_s.Gdb.State.{GdbProtocolData}
use projet_s.Gdb.Packet.{Handler}
use projet_s.Gdb.Commands.{
  read_general_registers, read_memory, reason, step, write_general_registers, write_memory_binary,
  write_register,
}
use projet_s.Gdb.Commands.Queries.{query, read_register, set_thread}
use projet_s.Gdb.Commands.Continue.{cont}

module _ (host : Host) (shutdown : GdbProtocolData → GdbProtocolData) (rounds : ℕ) where
  unfoldable pub kill_request : GdbProtocolData → List ℕ → Outcome GdbProtocolData
  kill_request gdb text = ok (shutdown gdb)

  -- handler[c], for `cont` with a number of rounds.
  unfoldable pub handler : ℕ → Option Handler
  handler c =
      if c == 0x63
      then some (cont host rounds)
      else if c == 0x6B
      then some kill_request
      else if c == 0x71
      then some query
      else if c == 0x67
      then some (read_general_registers host)
      else if c == 0x6D
      then some (read_memory host)
      else if c == 0x70
      then some (read_register host)
      else if c == 0x3F
      then some (reason host)
      else if c == 0x48
      then some set_thread
      else if c == 0x73
      then some (step host)
      else if c == 0x47
      then some (write_general_registers host)
      else if c == 0x58
      then some (write_memory_binary host)
      else if c == 0x50
      then some (write_register host)
      else none
