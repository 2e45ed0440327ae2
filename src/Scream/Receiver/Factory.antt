-- ===== src/Scream/Receiver/Factory.antt =====
-- scream/receiver_interceptor.go, `NewReceiverInterceptor` and `NewInterceptor`, and
-- scream/receiver_option.go. Durations are in nanoseconds.
use rtp_over_quic.Base.{ℕ, ◌*◌, Bool, false, List, [], ◌∷◌}
use rtp_over_quic.Scream.Receiver.{RxLib, Receiver, new_receiver}

-- The fields of a new interceptor that its options may change, and the debugging flag. What the
-- goroutines share is in `Receiver`.
pub record Interceptor : Type 0 where
  pub interval : ℕ
  pub mark : Bool

abbrev ReceiverOption : Type 0
ReceiverOption = Interceptor → Interceptor

unfoldable receiver_interval : ℕ → ReceiverOption
receiver_interval interval s = record s { interval = interval }

-- None of the options returns an error.
unfoldable pub apply_all : List ReceiverOption → Interceptor → Interceptor
apply_all [] r = r
apply_all (opt ∷ opts) r = apply_all opts (opt r)

-- The factory keeps the options, and each interceptor that it makes applies them; `screamRx` is
-- empty.
unfoldable pub new_interceptor : (x : RxLib) → List ReceiverOption → Interceptor × Receiver x
unfolding apply_all
new_interceptor x opts =
    (apply_all opts (record { interval = 10 * 1_000_000; mark = false }), new_receiver x)
