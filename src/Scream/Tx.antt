-- ===== src/Scream/Tx.antt =====
-- The congestion control of the package scream-go, which is not in the repository: a parameter. It
-- sees the queue of a stream through the interface `scream.RTPQueue`, whose only method that
-- changes the queue is `Clear`; so each call says whether it clears the queue.
use rtp_over_quic.Base.{ℕ, Bool, List}
use rtp_over_quic.Pion.{RtpLib, FloatLib}
use rtp_over_quic.Scream.Queue.{Queue}

pub record TxLib (r : RtpLib) (f : FloatLib) : Type 1 where
  pub Tx : Type 0
  -- The time, the SSRC, and the queue of that stream.
  pub is_ok_to_transmit : Tx → ℕ → ℕ → Queue r f → Tx × Bool × f.Float
  -- The time, the SSRC, the size, the sequence number and the marker.
  pub add_transmitted : Tx → ℕ → ℕ → ℕ → ℕ → Bool → Queue r f → Tx × Bool
  -- The time, the SSRC and the size.
  pub new_media_frame : Tx → ℕ → ℕ → ℕ → Queue r f → Tx × Bool
  -- The SSRC, the priority, and the smallest, first and largest bitrate.
  pub register_new_stream : Tx → ℕ → f.Float → f.Float → f.Float → f.Float → Tx
  -- The time and the bytes of the report.
  pub incoming_standardized_feedback : Tx → ℕ → List ℕ → Tx
  pub get_target_bitrate : Tx → ℕ → f.Float
