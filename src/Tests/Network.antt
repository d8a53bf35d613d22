-- ===== src/Tests/Network.antt =====
-- The theorems on the programs that talk to the simulator, and on the program that it runs, at
-- small inputs.
use projet_s.Constants.Names.{arm_get_exception_name}
use projet_s.Gdb.Lexer.Served.{yylex-lex, serve}
use projet_s.Gdb.Lexer.Frames.{stream}
use projet_s.Gdb.Lexer.{lex}
use projet_s.Gdb.Handlers.{handler}
use projet_s.Gdb.Packet.{gdb_packet_analysis}
use projet_s.Gdb.State.{gdb_init_data}
use projet_s.Gdb.Scanner.{ParserData, yylex}
use projet_s.Exception.{arm_exception}
use projet_s.Common.{some, ℕ, ◌≡◌, refl, arith, ◌==◌, if◌then◌else◌, List, [], ◌∷◌}
use projet_s.Outcome.{ok, ◌>>=◌}
use projet_s.InsertionSort.{Array, array, numbers, insertion_sort, main}
use projet_s.InsertionSort.Sorted.{IsSorted, SameNumbers, insertion_sort-IsSorted}
use projet_s.SendIrq.{Named}
use projet_s.SendIrq.Socket.{send_irq, irq_listener-send_irq}
use projet_s.Simulator.{port}
use projet_s.Simulator.Server.{create_server, irq_listener}
use projet_s.Text.{codes, atoi}
use projet_s.Word.Signed.{pos, negsuc}
use projet_s.Network.{Network, Call, BindsAsked, ntohs, connected, written}
use projet_s.Tests.Machine.{x86, small_machine}

-- A system that gives out two descriptors, and chooses the port 5000 where none is asked for.
abbrev net : Network
net = record {
  socket = 3;
  accept = λ socket. 4;
  getsockname = λ sin_port. if sin_port == 0 then 0x8813 else sin_port;
  gethostbyname = λ name. 0x7F000001;
}

net-BindsAsked : BindsAsked net
net-BindsAsked sin_port h = ground (arith, h)

Named-interrupt : Named 7 (codes "interrupt")
unfolding arm_get_exception_name
Named-interrupt = ("interrupt", refl, refl)

parsed : atoi (codes "1234") ≡ ok (pos 1234)
unfolding atoi
parsed = refl

irq_listener-send_irq_example :
    (calls : List Call) × (port_number : ℕ) × (send_irq x86 net 4
        (codes "localhost")
        (codes "1234")
        (codes "interrupt")
      ≡ ok calls)
    × (port (codes "1234") ≡ ok port_number)
    × ((sin_port : ℕ) × (connected calls ≡ some sin_port)
        × (ntohs x86 sin_port ≡ (create_server x86 net port_number).0.port)
        × (ntohs x86 sin_port ≡ port_number))
    × ((irq_listener x86 net port_number small_machine (written calls ∷ [])).0
        ≡ arm_exception small_machine 7)
irq_listener-send_irq_example =
    irq_listener-send_irq x86 net 4 7 (codes "localhost") (codes "1234") (codes "interrupt")
      (pos 1234) small_machine (omega arith) Named-interrupt parsed (omega arith) net-BindsAsked

-- A question for the reason of the stop, and a step.
abbrev two_texts : List (List ℕ)
two_texts = codes "?" ∷ codes "s" ∷ []

abbrev idle : ParserData
idle = record { gdb = gdb_init_data small_machine; buffer = λ i. 0; len = 0 }

yylex-lex_example :
    yylex (gdb_packet_analysis x86 (handler x86 (λ gdb. gdb) 3)) idle (lex (stream two_texts)) ≡ (
      serve x86 (handler x86 (λ gdb. gdb) 3) (gdb_init_data small_machine) two_texts >>= λ gdb.
      ok (record idle { gdb = gdb }))
yylex-lex_example = yylex-lex x86 (handler x86 (λ gdb. gdb) 3) two_texts idle (omega arith) refl

insertion_sort-IsSorted_example :
    (u : Array) × (insertion_sort 16 (array numbers) ≡ ok u)
    × IsSorted u 16
    × SameNumbers 16 u (array numbers)
insertion_sort-IsSorted_example = insertion_sort-IsSorted 16 (array numbers)

-- The first number of the array that the program leaves.
first_number : (main >>= λ t. ok (t 0)) ≡ ok (negsuc 1336)
unfolding main
first_number = refl
