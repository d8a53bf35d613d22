-- ===== src/Network.antt =====
-- The network as arm_simulator.c and send_irq.c use it. The functions of csapp.c and the system are
-- not modelled: what they return is a parameter, and a program is the list of its calls of them.
use projet_s.Common.{
  ℕ, ◌+◌, ◌*◌, ◌/◌, ◌%◌, ◌^◌, ◌≡◌, ◌≢◌, arith, if◌then◌else◌, Option, none, some, List, [], ◌∷◌,
}
use projet_s.Word.{Host, u16}

-- The calls that change a socket. A port stands in network byte order, as in `sin_port`.
pub data Call : Type 0 where
  reuse_address : (descriptor : ℕ) → Call
  bind : (descriptor sin_port : ℕ) → Call
  listen : (descriptor backlog : ℕ) → Call
  connect : (descriptor address sin_port : ℕ) → Call
  write : (descriptor byte : ℕ) → Call
  shutdown : (descriptor : ℕ) → Call
  close : (descriptor : ℕ) → Call

-- What the system returns: the descriptor of a new socket, the descriptor of the connection that is
-- accepted on a socket, the `sin_port` of a socket that was bound with another, and the address of
-- a host.
pub record Network : Type 0 where
  pub socket : ℕ
  pub accept : ℕ → ℕ
  pub getsockname : ℕ → ℕ
  pub gethostbyname : List ℕ → ℕ

-- A socket that is bound to a port other than 0 has that port.
abbrev pub BindsAsked : Network → Type 0
BindsAsked net = (sin_port : ℕ) → sin_port ≢ 0 → net.getsockname sin_port ≡ sin_port

module _ (host : Host) where
  -- The 16-bit argument with its bytes in network order, the higher one first.
  unfoldable pub htons : ℕ → ℕ
  htons port =
      let port = u16 port in if host.big_endian then port else port % 2 ^ 8 * 2 ^ 8 + port / 2 ^ 8

  unfoldable pub ntohs : ℕ → ℕ
  unfolding htons
  ntohs port = htons port

  pub ntohs-htons : (port : ℕ) → ntohs (htons port) ≡ port % 2 ^ 16
  unfolding ntohs htons
  ntohs-htons port = ground arith

  -- The conversion reads 16 bits only.
  pub htons-mod : (port : ℕ) → htons (port % 2 ^ 16) ≡ htons port
  unfolding htons
  htons-mod port = ground arith

  pub htons-ne_zero : (port : ℕ) → u16 port ≢ 0 → htons (u16 port) ≢ 0
  unfolding htons
  htons-ne_zero port h e = ground arith

-- The first port that a socket is connected to, and the bytes that are written, in their order.
abbrev pub connected : List Call → Option ℕ
connected [] = none
connected (connect descriptor address sin_port ∷ calls) = some sin_port
connected (call ∷ calls) = connected calls

abbrev pub written : List Call → List ℕ
written [] = []
written (write descriptor byte ∷ calls) = byte ∷ written calls
written (call ∷ calls) = written calls
