-- ===== src/Simulator/Main.antt =====
-- `main` of arm_simulator.c: the options, the start, and the run of the two threads until the
-- debugger's thread is joined.
use projet_s.Common.{ℕ, ◌^◌, ◌<◌, ◌≡◌, refl, List, [], ◌∷◌, Option}
use projet_s.Outcome.{Outcome, ok, ◌>>=◌, Ensures, Ensures-ok, Ensures->>=, Ensures-itself}
use projet_s.Word.{Host}
use projet_s.Registers.{Registers}
use projet_s.Exception.{arm_exception}
use projet_s.Arm.Valid.{IsWords, IsValid}
use projet_s.Gdb.State.{GdbProtocolData, gdb_init_data}
use projet_s.Gdb.Packet.{gdb_packet_analysis}
use projet_s.Gdb.Handlers.{handler}
use projet_s.Gdb.Scanner.{scan, yylex, ParserData, Token, gdb_scanner, Fits}
use projet_s.Simulator.{Options, default_options, set_options, start}
use projet_s.Simulator.Threads.{Action, gdb, irq, act, Reachable, started, acted, Reachable-IsValid}
use projet_s.Simulator.Server.{irq_connection}

abbrev gdb_actions : ℕ → List Token → List Action
gdb_actions rounds [] = []
gdb_actions rounds (token ∷ tokens) = gdb rounds token ∷ gdb_actions rounds tokens

abbrev irq_actions : List ℕ → List Action
irq_actions [] = []
irq_actions (byte ∷ bytes) = irq byte ∷ irq_actions bytes

module _ (host : Host) (shutdown : GdbProtocolData → GdbProtocolData) where
  -- The actions of both threads, in the order in which they get the lock.
  unfoldable pub run : ParserData → List Action → Outcome ParserData
  run parser [] = ok parser
  run parser (action ∷ actions) = do parser ← act host shutdown parser action; run parser actions

  -- The options, the registers, the memory and the array of the scanner before they are set, and
  -- the actions until the debugger's connection ends.
  unfoldable pub main :
      (List ℕ → Option ℕ)
      → List (ℕ × List ℕ)
      → Registers
      → (ℕ → ℕ)
      → (ℕ → ℕ)
      → List Action
      → Outcome (Options × ParserData)
  unfolding run
  main fopen args registers contents buffer actions = do
    options ← set_options fopen default_options args
    let p = start host registers contents
    parser ← run (gdb_scanner (gdb_init_data p) buffer) actions
    ok (options, parser)

  -- The two threads alone do what their actions do: the scanner's loop over its tokens, and the
  -- interrupts of a connection.
  pub run-yylex :
      (rounds : ℕ) (tokens : List Token) (parser : ParserData)
      → run parser (gdb_actions rounds tokens)
        ≡ yylex (gdb_packet_analysis host (handler host shutdown rounds)) parser tokens
  unfolding run act yylex
  run-yylex rounds [] parser = refl
  run-yylex rounds (token ∷ tokens) parser = λ i.
      scan (gdb_packet_analysis host (handler host shutdown rounds)) parser token >>= λ after.
      run-yylex rounds tokens after i

  pub run-irq_connection :
      (bytes : List ℕ) (parser : ParserData)
      → run parser (irq_actions bytes)
        ≡ ok (record parser {
          gdb = record parser.gdb { arm = irq_connection parser.gdb.arm bytes };
        })
  unfolding run act irq_connection
  run-irq_connection [] parser = refl
  run-irq_connection (byte ∷ bytes) parser =
      run-irq_connection bytes
        (record parser { gdb = record parser.gdb { arm = arm_exception parser.gdb.arm byte } })

  run-Reachable :
      (actions : List Action) (parser : ParserData)
      → Reachable host shutdown parser
      → Ensures (run parser actions) (Reachable host shutdown)
  unfolding run
  run-Reachable [] parser reached = Ensures-ok reached
  run-Reachable (action ∷ actions) parser reached =
      Ensures->>= (Ensures-itself (act host shutdown parser action))
        λ after done. run-Reachable actions after (acted action after reached done)

  module _ (fits : host.indeterminate < 2 ^ 32)
      (leaves_arm : (gdb : GdbProtocolData) → (shutdown gdb).arm ≡ gdb.arm) where
    pub main-IsValid :
        (fopen : List ℕ → Option ℕ) (args : List (ℕ × List ℕ)) (registers : Registers)
        (contents buffer : ℕ → ℕ) (actions : List Action)
        → IsWords registers
        → ((i : ℕ) → contents i < 2 ^ 8)
        → Ensures
            (main fopen args registers contents buffer actions)
            (λ end. IsValid 0x20000 end.1.gdb.arm × Fits end.1)
    unfolding main
    main-IsValid fopen args registers contents buffer actions words bytes =
        Ensures->>= (Ensures-itself (set_options fopen default_options args)) λ options set.
          Ensures->>=
            (run-Reachable actions
              (gdb_scanner (gdb_init_data (start host registers contents)) buffer)
              (started registers contents buffer words bytes))
            λ parser reached.
              Ensures-ok (Reachable-IsValid host shutdown fits leaves_arm parser reached)
