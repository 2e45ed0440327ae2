-- ===== src/Quic/Sender.antt =====
-- quic/sender.go: the writer of a media stream chooses between a datagram and a stream.
pub mod Choice
use rtp_over_quic.Base.{
  ℕ, ◌+◌, Bool, true, false, List, [], ◌∷◌, ◌++◌, Option, none, some, Outcome, ok, err, panic,
  ◌>>=◌, ltb, if◌then◌else◌, length, String,
}
use rtp_over_quic.Pion.{
  RtpLib, Attributes, Value, of_time, of_reliability, of_flow_id, of_transport, of_other,
}
use rtp_over_quic.Quic.Varint.{VarintLib}
use rtp_over_quic.Quic.Mode.{SenderConfig, SenderOption, TransportMode, any, dgram, stream}

-- The packet that a datagram's acknowledgement is reported for.
pub record AckedPkt : Type 0 where
  pub sent_ts : ℕ
  pub ssrc : ℕ
  pub size : ℕ
  pub seq_nr : ℕ

-- What the writer does with the packet: `writeDgram`, with the callback of `ackCallback` (`none` is
-- nil), or `writeStream`, on a new stream that is closed behind it.
pub data Sending : Type 0 where
  on_dgram : List ℕ → Option AckedPkt → Sending
  on_stream : List ℕ → Sending

-- `NewSender`'s configuration, before the options.
unfoldable pub default_config : SenderConfig
default_config = record {
  remote_addr = ":4242";
  qlog_directory_name = "";
  ssl_key_log_file_name = "";
  cc = 0;
  local_rfc8888 = false;
  max_mtu = 1300;
  transport_mode = any;
}

-- The options, in order. None of them returns an error.
unfoldable pub new_sender_config : List SenderOption → SenderConfig → SenderConfig
new_sender_config [] c = c
new_sender_config (opt ∷ opts) c = new_sender_config opts (opt c)

-- `reliability.(rtp.Reliability) == rtp.REQUIRED`; a value of another type panics.
abbrev pub is_required : Option Value → Outcome Bool
is_required none = ok false
is_required (some (of_reliability b)) = ok b
is_required (some (of_time t)) = panic
is_required (some (of_flow_id t)) = panic
is_required (some (of_transport t)) = panic
is_required (some of_other) = panic

unfoldable pub ack_callback : SenderConfig → ℕ → ℕ → ℕ → ℕ → Option AckedPkt
ack_callback c sent ssrc size seq_nr =
    if c.local_rfc8888
    then some (record { sent_ts = sent; ssrc = ssrc; size = size; seq_nr = seq_nr })
    else none

module _ (r : RtpLib) (c : SenderConfig) where
  abbrev pub write_dgram : ℕ → r.Header → List ℕ → Sending
  write_dgram now header pl = on_dgram pl (
      ack_callback c now (r.ssrc header) (r.marshal_size header + length pl)
        (r.sequence_number header))

  -- In the mode ANY: by the size, and by the reliability that the attributes ask for.
  unfoldable pub choose : ℕ → r.Header → List ℕ → Option Attributes → Outcome Sending
  unfolding ack_callback
  choose now header pl attributes =
      if ltb c.max_mtu (length pl) then ok (on_stream pl) else elim attributes [
        | none ↦ ok (write_dgram now header pl)
        | some a ↦ (do
          required ← is_required a.reliability
          ok (if required then on_stream pl else write_dgram now header pl))
      ]

  abbrev pub by_mode : TransportMode → ℕ → r.Header → List ℕ → Option Attributes → Outcome Sending
  by_mode dgram now header pl attributes = ok (write_dgram now header pl)
  by_mode stream now header pl attributes = ok (on_stream pl)
  by_mode any now header pl attributes = choose now header pl attributes

  -- The writer that `NewMediaStreamWithFlowID` returns, for the bytes of the flow ID; `now` is the
  -- time of the call.
  unfoldable pub media_write : List ℕ → ℕ → r.Header → List ℕ → Option Attributes → Outcome Sending
  unfolding choose
  media_write id_bytes now header payload attributes = do
    header_buf ← r.marshal header
    by_mode c.transport_mode now header (id_bytes ++ (header_buf ++ payload)) attributes

  -- `NewMediaStreamWithFlowID` and one call of the writer.
  unfoldable pub media_stream :
      VarintLib → ℕ → ℕ → r.Header → List ℕ → Option Attributes → Outcome Sending
  unfolding media_write
  media_stream v id now header payload attributes = do
    id_bytes ← v.write id
    media_write id_bytes now header payload attributes
