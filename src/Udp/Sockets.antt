-- ===== src/Udp/Sockets.antt =====
-- udp/udp.go, `listenUDP` and `connectUDP`: the sockets of the server and of the sender. The
-- addresses, the opening of a socket, and the search for a part of a text are the standard
-- library's, and parameters here.
use rtp_over_quic.Base.{
  ℕ, ◌≡◌, refl, Bool, true, false, not, String, Option, none, some, Outcome, ok, err, panic, ◌⊎◌,
  inl, inr, if◌then◌else◌, Bool-cases,
}
use rtp_over_quic.Udp.Buffer.{
  Socket, BufferError, message, set_receive_buffer, IsLargeEnough, set_receive_buffer-IsLargeEnough,
}

-- `net.ResolveUDPAddr`; `net.ListenUDP` or `net.DialUDP`, which gives the state of the socket;
-- `strings.Contains`; and `fmt`'s printing of a number.
pub record NetLib (k : Socket) : Type 1 where
  pub Addr : Type 0
  pub resolve : String → String ⊎ Addr
  pub listen : Addr → String ⊎ k.State
  pub dial : Addr → String ⊎ k.State
  pub contains : String → String → Bool
  pub decimal : ℕ → String

abbrev closed_text : String
closed_text = "use of closed network connection"

module _ (k : Socket) (n : NetLib k) where
  -- The error of `SetReceiveBuffer` is only logged, unless its text says that the socket is closed.
  -- The result has what is logged.
  unfoldable prepared : Option BufferError × k.State → Outcome (Option BufferError × k.State)
  prepared (none, s) = ok (none, s)
  prepared (some e, s) =
      if not (n.contains (message n.decimal e) closed_text)
      then ok (some e, s)
      else err (message n.decimal e)

  unfoldable pub opened : String ⊎ k.State → Outcome (Option BufferError × k.State)
  unfolding prepared
  opened (inl e) = err e
  opened (inr s) = prepared (set_receive_buffer k s)

  -- `start`: `listen` or `dial`.
  unfoldable opened_at :
      (n.Addr → String ⊎ k.State) → String ⊎ n.Addr → Outcome (Option BufferError × k.State)
  unfolding opened
  opened_at start (inl e) = err e
  opened_at start (inr a) = opened (start a)

  unfoldable pub listen_udp : String → Outcome (Option BufferError × k.State)
  unfolding opened_at
  listen_udp addr = opened_at n.listen (n.resolve addr)

  unfoldable pub connect_udp : String → Outcome (Option BufferError × k.State)
  unfolding opened_at
  connect_udp addr = opened_at n.dial (n.resolve addr)

  -- What a caller can rely on. Without a warning the buffer is large enough; what is only a warning
  -- does not say that the socket is closed; and an error is the address's, the opening's, or says
  -- that the socket is closed.
  abbrev pub IsPrepared :
      (n.Addr → String ⊎ k.State)
      → String ⊎ n.Addr
      → Outcome (Option BufferError × k.State)
      → Type 0
  IsPrepared start resolved (ok (none, s)) = IsLargeEnough k s
  IsPrepared start resolved (ok (some e, s)) = n.contains (message n.decimal e) closed_text ≡ false
  IsPrepared start resolved (err e) =
      (resolved ≡ inl e)
      ⊎ (((a : n.Addr) × (resolved ≡ inr a) × (start a ≡ inl e))
          ⊎ (n.contains e closed_text ≡ true))
  IsPrepared start resolved panic = ⊥

  prepared-IsPrepared :
      (start : n.Addr → String ⊎ k.State) (resolved : String ⊎ n.Addr)
      (result : Option BufferError × k.State)
      → (result.0 ≡ none → IsLargeEnough k result.1)
      → IsPrepared start resolved (prepared result)
  unfolding prepared
  prepared-IsPrepared start resolved (none, s) large = large refl
  prepared-IsPrepared start resolved (some e, s) large =
      elim (Bool-cases (n.contains (message n.decimal e) closed_text)) [
        | inl closed ↦ rw closed (inr (inr closed))
        | inr other ↦ rw other other
      ]

  opened-IsPrepared :
      (start : n.Addr → String ⊎ k.State) (a : n.Addr) (o : String ⊎ k.State)
      → start a ≡ o
      → IsPrepared start (inr a) (opened o)
  unfolding opened
  opened-IsPrepared start a (inl e) o = inr (inl (a, refl, o))
  opened-IsPrepared start a (inr s) o =
      prepared-IsPrepared start (inr a) (set_receive_buffer k s)
        (set_receive_buffer-IsLargeEnough k s)

  opened_at-IsPrepared :
      (start : n.Addr → String ⊎ k.State) (resolved : String ⊎ n.Addr)
      → IsPrepared start resolved (opened_at start resolved)
  unfolding opened_at
  opened_at-IsPrepared start (inl e) = inl refl
  opened_at-IsPrepared start (inr a) = opened-IsPrepared start a (start a) refl

  -- The sockets of the server and of the sender: one that comes without a warning has a receive
  -- buffer of at least the desired size; a warning does not say that the socket is closed; an error
  -- is that of the address or of the opening, or it says that the socket is closed.
  pub sockets-IsPrepared :
      (addr : String)
      → IsPrepared n.listen (n.resolve addr) (listen_udp addr)
        × IsPrepared n.dial (n.resolve addr) (connect_udp addr)
  unfolding listen_udp connect_udp
  sockets-IsPrepared addr =
      (opened_at-IsPrepared n.listen (n.resolve addr), opened_at-IsPrepared n.dial (n.resolve addr))
