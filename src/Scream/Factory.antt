-- ===== src/Scream/Factory.antt =====
-- scream/sender_interceptor.go, `NewInterceptor`, and scream/sender_option.go.
use rtp_over_quic.Base.{List, [], ◌∷◌}
use rtp_over_quic.Pion.{RtpLib, FloatLib}
use rtp_over_quic.Scream.Queue.{Queue, new_queue}
use rtp_over_quic.Scream.Tx.{TxLib}

module _ {r : RtpLib} {f : FloatLib} (lib : TxLib r f) where
  -- The fields of the interceptor that its options change; `new_rtp_queue` is the queue that a call
  -- of the factory function makes.
  pub record Interceptor : Type 0 where
    pub tx : lib.Tx
    pub new_rtp_queue : Queue r f
    pub min_bitrate : f.Float
    pub initial_bitrate : f.Float
    pub max_bitrate : f.Float

  abbrev pub SenderOption : Type 0
  SenderOption = Interceptor → Interceptor

  unfoldable sender_queue : Queue r f → SenderOption
  sender_queue queue s = record s { new_rtp_queue = queue }

  unfoldable set_tx : lib.Tx → SenderOption
  set_tx tx s = record s { tx = tx }

  unfoldable min_bitrate : f.Float → SenderOption
  min_bitrate rate s = record s { min_bitrate = rate }

  unfoldable pub initial_bitrate : f.Float → SenderOption
  initial_bitrate rate s = record s { initial_bitrate = rate }

  unfoldable max_bitrate : f.Float → SenderOption
  max_bitrate rate s = record s { max_bitrate = rate }

  -- None of the options returns an error.
  unfoldable pub apply_all : List SenderOption → Interceptor → Interceptor
  apply_all [] s = s
  apply_all (opt ∷ opts) s = apply_all opts (opt s)

  -- For the state that `NewTx` makes. The factory's callback, if there is one, then gets the
  -- interceptor.
  unfoldable new_interceptor : lib.Tx → List SenderOption → Interceptor
  unfolding apply_all new_queue
  new_interceptor tx opts = apply_all opts (record {
    tx = tx;
    new_rtp_queue = new_queue;
    min_bitrate = f.of_nat 100_000;
    initial_bitrate = f.of_nat 500_000;
    max_bitrate = f.of_nat 100_000_000;
  })
