-- ===== src/Quic/Connection/Accepting.antt =====
-- Which connections and streams are served.
use rtp_over_quic.Base.{◌≡◌, refl, true, false, List, [], ◌∷◌, ◌++◌, ℕ, All}
use rtp_over_quic.Quic.Receiver.{RecvError, is_final}
use rtp_over_quic.Quic.Connection.{StreamEvent, stream, fails, accept_streams}

-- The error does not end the loop.
abbrev IsPassing : StreamEvent → Type 0
IsPassing (stream s) = Unit {0}
IsPassing (fails e) = is_final e ≡ false

abbrev streams_in : List StreamEvent → List ℕ
streams_in [] = []
streams_in (stream s ∷ more) = s ∷ streams_in more
streams_in (fails e ∷ more) = streams_in more

-- Up to an error that says that the connection is gone, `acceptStreams` starts a goroutine for
-- every stream, whatever other errors come between; with that error it returns.
accept_streams-final :
    (es more : List StreamEvent) (e : RecvError)
    → All IsPassing es
    → is_final e ≡ true
    → accept_streams (es ++ fails e ∷ more) ≡ (streams_in es, true)
unfolding accept_streams
accept_streams-final [] more e passing final = rw final refl
accept_streams-final (stream s ∷ es) more e (here, passing) final =
    rw (accept_streams-final es more e passing final) refl
accept_streams-final (fails f ∷ es) more e (here, passing) final =
    rw here (accept_streams-final es more e passing final)
