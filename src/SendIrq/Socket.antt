-- ===== src/SendIrq/Socket.antt =====
-- The connection of send_irq.c to the simulator, and what the interrupt listener of
-- arm_simulator.c makes of it.
use projet_s.Common.{◌≢◌, ◌∙◌, some, ℕ, ◌≤◌, ◌≡◌, refl, ap, sym, List, [], ◌∷◌}
use projet_s.Outcome.{Outcome, ok, ◌>>=◌}
use projet_s.Word.{Host, u16}
use projet_s.Word.Signed.{ℤ}
use projet_s.Text.{atoi, pattern32}
use projet_s.Network.{
  Network, Call, reuse_address, connect, write, shutdown, close, htons, connected, written,
  htons-mod, htons-ne_zero, ntohs, ntohs-htons, BindsAsked,
}
use projet_s.Arm.{ArmCore}
use projet_s.Exception.{arm_exception}
use projet_s.Simulator.{port}
use projet_s.Simulator.Server.{irq_listener, create_server}
use projet_s.SendIrq.{select_irq, Named, select_irq_lem}

module _ (host : Host) (net : Network) where
  -- The number of arguments, with the name of the program, and the others: the host, the port, and
  -- the name of the exception.
  unfoldable pub send_irq : ℕ → List ℕ → List ℕ → List ℕ → Outcome (List Call)
  send_irq argc hostname service name = do
    irq ← select_irq argc name
    let sock = net.socket
    number ← atoi service
    let sin_port = htons host (pattern32 number)
    ok (
        reuse_address sock
        ∷ connect sock (net.gethostbyname hostname) sin_port
        ∷ write sock irq
        ∷ shutdown sock
        ∷ close sock
        ∷ [])

  -- With the name of an exception and as the port a number that leaves one, the program connects to
  -- the port on which the listener that was started with the same text as its port says that it
  -- listens, and the byte that it writes there makes the simulator enter that exception and no other.
  -- The system binds a socket to the port that it is asked for, unless that is 0, for which it chooses
  -- one.
  pub irq_listener-send_irq :
      (argc irq : ℕ) (hostname service name : List ℕ) (number : ℤ) (p : ArmCore)
      → 4 ≤ argc
      → Named irq name
      → atoi service ≡ ok number
      → u16 (pattern32 number) ≢ 0
      → BindsAsked net
      → (calls : List Call) × (port_number : ℕ) × (send_irq argc hostname service name ≡ ok calls)
        × (port service ≡ ok port_number)
        × ((sin_port : ℕ) × (connected calls ≡ some sin_port)
            × (ntohs host sin_port ≡ (create_server host net port_number).0.port)
            × (ntohs host sin_port ≡ port_number))
        × ((irq_listener host net port_number p (written calls ∷ [])).0 ≡ arm_exception p irq)
  unfolding send_irq irq_listener create_server
  irq_listener-send_irq argc irq hostname service name number p h named e asked binds = (
    reuse_address net.socket
        ∷ connect net.socket (net.gethostbyname hostname) (htons host (pattern32 number))
        ∷ write net.socket irq
        ∷ shutdown net.socket
        ∷ close net.socket
        ∷ [],
    u16 (pattern32 number),
    rw (((select_irq_lem argc name h).0 irq).1 named, e) refl,
    rw e refl,
    (
      htons host (pattern32 number),
      refl,
      ap (ntohs host) (
          sym (htons-mod host (pattern32 number))
          ∙ sym (
              binds (htons host (u16 (pattern32 number)))
                (htons-ne_zero host (pattern32 number) asked))),
      ntohs-htons host (pattern32 number),
    ),
    refl,
  )
