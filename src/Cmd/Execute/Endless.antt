-- ===== src/Cmd/Execute/Endless.antt =====
-- cmd/receive.go's `start` under the context that cobra passes, which is never cancelled: the
-- program makes no other, and handles no signal.
use rtp_over_quic.Base.{Bool, ◌⊎◌, ◌≢◌, ◌≡◌, refl, true, ℕ, List, [], ◌∷◌, String, ok, panic, All}
use Prim.Native.String.{◌++◌ as str_append}
use rtp_over_quic.Udp.Server as Udp
use rtp_over_quic.Quic.Connection as Quic
use rtp_over_quic.Tcp.Transport as Tcp
use rtp_over_quic.Cmd.Transport.{Kind, udp, kind_of}
use rtp_over_quic.Cmd.Profiling.{System, Written, CanCreate, files, write_all, last_key}
use rtp_over_quic.Cmd.Execute.{
  Start, returns, Ending, exits, crashes, runs, run, execute, execute_root, execute-profiles_at,
}
use rtp_over_quic.Cmd.Execute.Receive.{Network, serve, start}

-- The socket is closed, and `Accept` returns `context.Canceled`, where the context is cancelled.
abbrev IsRead : Udp.Read → Type 0
IsRead (Udp.datagram addr buf) = Unit {0}
IsRead Udp.closed = ⊥
IsRead Udp.broken = Unit {0}

abbrev IsAccepted : Quic.Accepted → Type 0
IsAccepted (Quic.connection c) = Unit {0}
IsAccepted Quic.canceled = ⊥
IsAccepted Quic.broken = Unit {0}

pub record IsOpen (n : Network) : Type 0 where
  pub reads : All IsRead n.datagrams
  pub accepts : All IsAccepted n.quic_connections

-- The main goroutine can panic: where it begins to listen, or in the handler of an address.
abbrev pub MainPanics : Network → String → Type 0
MainPanics n transport =
    (n.listens ≡ panic) ⊎ ((transport ≡ "udp") × ((addr : ℕ) × (n.panics addr ≡ true)))

-- `start` has not returned nil, and a panic of the main goroutine has this reason.
abbrev GoesOn : Type 0 → Start → Type 0
GoesOn Reason (returns (ok done)) = ⊥
GoesOn Reason (returns panic) = Reason
GoesOn Reason _ = Unit {0}

abbrev HandlerPanics : (ℕ → Bool) → Type 0
HandlerPanics panics = (addr : ℕ) × (panics addr ≡ true)

-- Only with UDP does the main goroutine handle a stream.
abbrev ServePanics : Network → Kind → Type 0
ServePanics n kind = (kind ≡ udp) × HandlerPanics n.panics

-- The command does not come to its end, and writes nothing but for this reason.
abbrev pub WritesOnlyFor : Type 0 → Ending × List Written → Type 0
WritesOnlyFor Reason (ending, written) = (ending ≢ exits) × ((written ≡ []) ⊎ Reason)

-- Without a CPU profile, and if all files can be created: with UDP, if the socket is opened and the
-- handling of the first datagram's address panics, then the program crashes and the profiles are
-- written, each under the key that the loop visited last.
execute-udp_panics :
    (s : System) (entries : List (String × String)) (n : Network) (addr : ℕ) (buf : List ℕ)
    (reads : List Udp.Read)
    → CanCreate s (files entries)
    → n.listens ≡ ok tt
    → n.datagrams ≡ Udp.datagram addr buf ∷ reads
    → n.panics addr ≡ true
    → execute s "" entries (runs (start n "udp"))
      ≡ (crashes, write_all (last_key entries "") (files entries))
unfolding execute_root run start serve Udp.start Udp.serve kind_of
execute-udp_panics s entries n addr buf reads fine listens datagrams it =
    let ends : start n "udp" ≡ returns panic =
      rw (start, listens, serve, Udp.start, datagrams, it) refl in
    rw ends (execute-profiles_at s entries (runs (returns panic)) fine)
