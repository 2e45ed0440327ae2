-- ===== src/Tcp/Sockets.antt =====
-- tcp/tcp.go and the two versions of `setCC`: the sockets of the server and of the sender. The
-- packages net and syscall are a parameter.
use Prim.Native.String.{◌++◌ as str_append}
use rtp_over_quic.Base.{
  ℕ, ◌≡◌, refl, String, Option, none, some, Option-cases, Outcome, ok, ◌>>=◌, ◌⊎◌, inl, inr,
}
use rtp_over_quic.Cc.{to_string}

-- Which of the two files is built.
pub data Platform : Type 0 where
  linux other_platform : Platform

-- `net.ResolveTCPAddr`, `net.ListenTCP`, and a dialer's `Dial` with its `Control`, which is called
-- with the connection's `RawConn`: the error that `RawConn.Control` returns, or the descriptor that
-- it gives to its function. `raw`: that of a connection. `set_option`: the error of
-- `SetsockoptString` for TCP_CONGESTION, by descriptor and name.
pub record NetLib : Type 1 where
  pub Addr : Type 0
  pub Conn : Type 0
  pub Listener : Type 0
  pub resolve : String → Outcome Addr
  pub listen : Addr → Outcome Listener
  pub dial : (String ⊎ ℕ → Option String) → String → Outcome Conn
  pub raw : Conn → String ⊎ ℕ
  pub set_option : ℕ → String → Option String

module _ (n : NetLib) where
  unfoldable pub set_cc : Platform → ℕ → String → Option String
  set_cc linux fd algo = n.set_option fd algo
  set_cc other_platform fd algo = none

  abbrev setting_failed : ℕ → Option String → Option String
  setting_failed cc none = none
  setting_failed cc (some e) = some (
      str_append "failed to set TCP congestion control algorithm to '"
        (str_append (to_string cc) (str_append "': " e)))

  -- The dialer's `Control`.
  unfoldable pub control : Platform → ℕ → String ⊎ ℕ → Option String
  unfolding set_cc
  control platform cc (inl e) = some e
  control platform cc (inr fd) = setting_failed cc (set_cc platform fd (to_string cc))

  unfoldable pub connect_tcp : Platform → String → ℕ → Outcome n.Conn
  unfolding control
  connect_tcp platform addr cc = n.dial (control platform cc) addr

  unfoldable pub listen_tcp : String → Outcome n.Listener
  listen_tcp addr = do tcp_addr ← n.resolve addr; n.listen tcp_addr

  -- `Dial` returns a connection only after `Control` was called for it and returned no error.
  pub record IsDialer : Type 0 where
    pub controls :
        (set : String ⊎ ℕ → Option String) (addr : String) (conn : n.Conn)
        → n.dial set addr ≡ ok conn
        → set (n.raw conn) ≡ none

  control-set :
      (cc : ℕ) (raw : String ⊎ ℕ)
      → control linux cc raw ≡ none
      → (fd : ℕ) × (raw ≡ inr fd) × (n.set_option fd (to_string cc) ≡ none)
  unfolding control
  control-set algorithm (inl e) set = cc set
  control-set algorithm (inr fd) set = elim (Option-cases (n.set_option fd (to_string algorithm))) [
    | inl taken ↦ (fd, refl, taken)
    | inr (e, refused) ↦ cc (rw (refused, set_cc) at set)
  ]

  -- On Linux, if `Dial` does what it documents: the socket of a connection that `connectTCP`
  -- returns has taken the name of the congestion control algorithm.
  pub connect_tcp-set_option :
      (addr : String) (cc : ℕ) (conn : n.Conn)
      → IsDialer
      → connect_tcp linux addr cc ≡ ok conn
      → (fd : ℕ) × (n.raw conn ≡ inr fd) × (n.set_option fd (to_string cc) ≡ none)
  unfolding connect_tcp
  connect_tcp-set_option addr cc conn dialer dialled =
      control-set cc (n.raw conn) (dialer.controls (control linux cc) addr conn dialled)
