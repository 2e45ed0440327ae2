-- ===== src/Cmd/Execute/Receive.antt =====
-- cmd/receive.go, `start`, with the servers of the three transports: what becomes of the receiver.
use rtp_over_quic.Base.{
  Bool, ℕ, List, [], ◌∷◌, String, Outcome, ok, err, panic, some, none, if◌then◌else◌,
}
use Prim.Native.String.{◌++◌ as str_append}
use rtp_over_quic.Udp.Server as Udp
use rtp_over_quic.Quic.Connection as Quic
use rtp_over_quic.Tcp.Transport as Tcp
use rtp_over_quic.Cmd.Transport.{Kind, quic, udp, tcp, kind_of}
use rtp_over_quic.Cmd.Execute.{Start, goes_on, dies, returns}

-- What happens to the server: whether it can listen, and what it reads and accepts. `panics`:
-- whether the handling of an address or a connection panics, as `addStream` does where the sink,
-- the registry or its `Build` fails.
pub record Network : Type 0 where
  pub listens : Outcome (Unit {0})
  pub datagrams : List Udp.Read
  pub quic_connections : List Quic.Accepted
  pub tcp_connections : List Tcp.Accepted
  pub panics : ℕ → Bool

-- `defer wg.Wait()`: a handler of QUIC or TCP returns when the context is done, and never before.
abbrev pub waits_for : List ℕ → Start → Start
waits_for [] s = s
waits_for (handler ∷ handlers) s = goes_on

-- With UDP, `onNewHandler` is a call of the main goroutine.
abbrev pub udp_start : (ℕ → Bool) → List Udp.Act × Udp.Exit → Start
udp_start panics ([], Udp.reading) = goes_on
udp_start panics ([], Udp.returns_nil) = returns (ok tt)
udp_start panics ([], Udp.returns_error) = returns (err "ReadFromUDP")
udp_start panics (Udp.new_handler addr ∷ acts, exit) =
    let rest = udp_start panics (acts, exit) in if panics addr then returns panic else rest
udp_start panics (Udp.receives addr buf ∷ acts, exit) = udp_start panics (acts, exit)

-- With QUIC and TCP, it is a call of the goroutine of its connection.
abbrev pub others : (ℕ → Bool) → List ℕ → Start → Start
others panics [] s = s
others panics (c ∷ cs) s = let rest = others panics cs s in if panics c then dies else rest

abbrev pub quic_start : Quic.Exit → Start
quic_start Quic.accepting = goes_on
quic_start Quic.returns_nil = returns (ok tt)
quic_start Quic.returns_error = returns (err "Accept")

-- `Start` of the three servers, behind `listen`.
unfoldable pub serve : Network → Kind → Start
unfolding Udp.start Udp.serve Quic.start Tcp.start
serve n udp = udp_start n.panics (Udp.start n.datagrams)
serve n quic =
    let (handled, exit) = Quic.start n.quic_connections in
    others n.panics handled (waits_for handled (quic_start exit))
serve n tcp =
    let (handled, returned) = Tcp.start n.tcp_connections in
    others n.panics handled
      (if returned then waits_for handled (returns (err "AcceptTCP")) else goes_on)

abbrev pub behind : Outcome (Unit {0}) → Start → Start
behind (ok listening) s = s
behind (err e) s = returns (err e)
behind panic s = returns panic

-- `start`.
unfoldable pub start : Network → String → Start
unfolding serve
start n transport = elim (kind_of transport) [
  | none ↦ returns (err (str_append "unknown transport protocol: " transport))
  | some kind ↦ behind n.listens (serve n kind)
]
