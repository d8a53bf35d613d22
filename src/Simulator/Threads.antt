-- ===== src/Simulator/Threads.antt =====
-- The threads gdb_listener and irq_listener of arm_simulator.c. Each acts on the processor under one
-- lock, so a run is a sequence of actions: a token of the debugger's connection, or a byte of an
-- interrupt connection.
use projet_s.Common.{ℕ, ◌^◌, ◌<◌, ◌≡◌, arith, to_bit}
use projet_s.Outcome.{Outcome, ok, Ensures, Ensures-ok, Ensures-at, Ensures->>=}
use projet_s.Word.{Host}
use projet_s.Memory
use projet_s.Registers.{Registers}
use projet_s.Arm.Valid.{IsWords, IsValid}
use projet_s.Exception.{arm_exception}
use projet_s.Exception.Valid.{arm_exception-IsValid, arm_create-IsValid}
use projet_s.Gdb.State.{GdbProtocolData, gdb_init_data, gdb_transmit_packet}
use projet_s.Gdb.Packet.{gdb_packet_analysis}
use projet_s.Gdb.Handlers.{handler}
use projet_s.Gdb.Valid.{gdb_packet_analysis-IsValid}
use projet_s.Gdb.Scanner.{
  ParserData, Token, plus, minus, packet, other, end, scan, gdb_scanner, Fits, handle_error,
  handle_error-empty, add_character_to_error-Collected,
}
use projet_s.Simulator.{start}

-- `rounds` is the number of steps that a program which is continued is given.
pub data Action : Type 0 where
  gdb : (rounds : ℕ) → Token → Action
  irq : ℕ → Action

module _ (host : Host) (shutdown : GdbProtocolData → GdbProtocolData) where
  unfoldable pub act : ParserData → Action → Outcome ParserData
  act parser (gdb rounds token) =
      scan (gdb_packet_analysis host (handler host shutdown rounds)) parser token
  act parser (irq exception) =
      let p = arm_exception parser.gdb.arm exception in
      ok (record parser { gdb = record parser.gdb { arm = p } })

  -- The states that the simulator can be in between two actions.
  pub data Reachable : ParserData → Type 0 where
    started :
        (registers : Registers) (contents buffer : ℕ → ℕ)
        → IsWords registers
        → ((i : ℕ) → contents i < 2 ^ 8)
        → Reachable (gdb_scanner (gdb_init_data (start host registers contents)) buffer)
    acted :
        {parser : ParserData} (action : Action) (after : ParserData)
        → Reachable parser
        → act parser action ≡ ok after
        → Reachable after

  record Good (parser : ParserData) : Type 0 where
    processor : IsValid 0x20000 parser.gdb.arm
    room : Fits parser

  module _ (fits : host.indeterminate < 2 ^ 32)
      (leaves_arm : (gdb : GdbProtocolData) → (shutdown gdb).arm ≡ gdb.arm) where
    handled : (parser : ParserData) → Good parser → Ensures (handle_error parser) Good
    handled parser good =
        let (after, done, none_left, sent, same) = handle_error-empty parser good.room in
        rw done (Ensures-ok (record { processor = rw same good.processor; room = omega arith }))

    scan-Good :
        (rounds : ℕ) (parser : ParserData) (token : Token)
        → Good parser
        → Ensures (scan (gdb_packet_analysis host (handler host shutdown rounds)) parser token) Good
    unfolding scan gdb_transmit_packet
    scan-Good rounds parser plus good = handled parser good
    scan-Good rounds parser minus good =
        Ensures->>= (handled parser good)
          λ after still. Ensures-ok (record { processor = still.processor; room = still.room })
    scan-Good rounds parser (packet text) good = Ensures->>= (handled parser good) λ after still.
        Ensures->>=
          (gdb_packet_analysis-IsValid host 0x20000 fits shutdown leaves_arm rounds after.gdb text
            still.processor)
          λ gdb valid. Ensures-ok (record { processor = valid; room = still.room })
    scan-Good rounds parser (other c) good =
        let (after, done, collected) = add_character_to_error-Collected parser c good.room in
        rw done (
          Ensures-ok
            (record { processor = rw (collected.same_arm) good.processor; room = collected.fits }))
    scan-Good rounds parser end good = handled parser good

    act-Good :
        (parser : ParserData) (action : Action) → Good parser → Ensures (act parser action) Good
    unfolding act
    act-Good parser (gdb rounds token) good = scan-Good rounds parser token good
    act-Good parser (irq exception) good =
        Ensures-ok
          (record { processor = arm_exception-IsValid exception good.processor; room = good.room })

    start-Good :
        (registers : Registers) (contents buffer : ℕ → ℕ)
        → IsWords registers
        → ((i : ℕ) → contents i < 2 ^ 8)
        → Good (gdb_scanner (gdb_init_data (start host registers contents)) buffer)
    unfolding gdb_scanner gdb_init_data start Memory.create
    start-Good registers contents buffer words bytes = record {
      processor =
          arm_create-IsValid registers
            (Memory.create contents 0x20000 (to_bit host.big_endian_simulator)) words bytes;
      room = omega arith;
    }

    Reachable-Good : (parser : ParserData) → Reachable parser → Good parser
    Reachable-Good parser (started registers contents buffer words bytes) =
        start-Good registers contents buffer words bytes
    Reachable-Good parser (acted action after reached done) =
        Ensures-at (act-Good _ action (Reachable-Good _ reached)) done

    -- In whichever order the debugger's tokens and the interrupts come, every register stays a
    -- word, every cell of the memory a byte and its size that of the start, and the array of the
    -- scanner has room for the next character.
    pub Reachable-IsValid :
        (parser : ParserData) → Reachable parser → IsValid 0x20000 parser.gdb.arm × Fits parser
    Reachable-IsValid parser reached =
        let good = Reachable-Good parser reached in (good.processor, good.room)
