-- ===== src/Simulator/Server.antt =====
-- The servers of arm_simulator.c: the sockets that the threads gdb_listener and irq_listener open,
-- and what each does with its connections. The messages on the standard error are left out.
use projet_s.Common.{ℕ, List, [], ◌∷◌, ◌++◌}
use projet_s.Outcome.{Outcome, ok, ◌>>=◌}
use projet_s.Word.{Host}
use projet_s.Network.{Network, Call, reuse_address, bind, listen, shutdown, close, htons, ntohs}
use projet_s.Arm.{ArmCore}
use projet_s.Exception.{arm_exception}
use projet_s.Gdb.State.{gdb_init_data}
use projet_s.Gdb.Packet.{Handler}
use projet_s.Gdb.Scanner.{ParserData, Token, yylex, gdb_scanner}

pub record ServerData : Type 0 where
  pub socket : ℕ
  pub port : ℕ

-- The exceptions of the bytes that are read from one connection.
unfoldable pub irq_connection : ArmCore → List ℕ → ArmCore
irq_connection p [] = p
irq_connection p (irq ∷ rest) = irq_connection (arm_exception p irq) rest

module _ (host : Host) (net : Network) where
  unfoldable pub create_server : ℕ → ServerData × List Call
  create_server port =
      let fd = net.socket in
      let sin_port = htons host port in
      (
        record { socket = fd; port = ntohs host (net.getsockname sin_port) },
        reuse_address fd ∷ bind fd sin_port ∷ listen fd 1 ∷ [],
      )

  -- One connection, whose tokens are given; `buffer` is what the stack of `gdb_scanner` holds.
  unfoldable pub gdb_listener :
      ℕ → ArmCore → Handler → (ℕ → ℕ) → List Token → Outcome (ParserData × List Call)
  unfolding create_server yylex
  gdb_listener port p analysis buffer tokens =
      let (server, calls) = create_server port in
      let connection = net.accept server.socket in
      do
        parser ← yylex analysis (gdb_scanner (gdb_init_data p) buffer) tokens
        ok (parser, calls ++ shutdown connection ∷ close server.socket ∷ [])

  -- The rounds of the endless loop for the connections that have come so far, each given by the
  -- bytes that are read from it.
  unfoldable pub irq_connections : ServerData → ArmCore → List (List ℕ) → ArmCore × List Call
  unfolding irq_connection
  irq_connections server p [] = (p, [])
  irq_connections server p (bytes ∷ rest) =
      let connection = net.accept server.socket in
      let (p, calls) = irq_connections server (irq_connection p bytes) rest in
      (p, shutdown connection ∷ calls)

  unfoldable pub irq_listener : ℕ → ArmCore → List (List ℕ) → ArmCore × List Call
  unfolding create_server irq_connections
  irq_listener port p connections =
      let (server, calls) = create_server port in
      let (p, more) = irq_connections server p connections in (p, calls ++ more)
