-- ===== src/Rtp/Format.antt =====
-- rtp/format.go: the lines of the packet logs, up to the printing of their columns. The TWCC header
-- extension is pion's: its `Unmarshal` is a parameter.
pub mod Columns
use rtp_over_quic.Base.{
  ℕ, ◌+◌, ◌≡◌, refl, Bool, List, [], ◌∷◌, ◌++◌, map, Outcome, ok, err, panic, ◌>>=◌, String, length,
}
use rtp_over_quic.Base.Int.{ℤ}
use rtp_over_quic.Rtp.Unwrapper.{Unwrapper, unwrap, unwrap_all}

-- The packet that `rtpFormat` reads: pion's `rtp.Packet`, with the bytes of its header extensions
-- in the order of `GetExtensionIDs`, and `MarshalSize`.
pub record Packet : Type 0 where
  pub payload_type : ℕ
  pub ssrc : ℕ
  pub sequence_number : ℕ
  pub timestamp : ℕ
  pub marker : Bool
  pub marshal_size : ℕ
  pub extensions : List (List ℕ)

-- The columns of a line of the RTP log.
pub record RtpLine : Type 0 where
  pub unix_milli : ℕ
  pub payload_type : ℕ
  pub ssrc : ℕ
  pub sequence_number : ℕ
  pub timestamp : ℕ
  pub marker : Bool
  pub size : ℕ
  pub twcc_nr : ℕ
  pub unwrapped_seq_nr : ℤ

-- The RTCP packets of `rtcpFormat`'s cases, with `Len()` or the length of the bytes.
pub data RtcpPacket : Type 0 where
  cc_feedback transport_layer_cc raw : ℕ → RtcpPacket
  other : RtcpPacket

record RtcpLine : Type 0 where
  pub unix_milli : ℕ
  pub size : ℕ
  pub types : List String

-- `TransportCCExtension.Unmarshal`: the transport sequence number.
abbrev pub TwccLib : Type 0
TwccLib = List ℕ → Outcome ℕ

-- The number of the first extension, 0 without one; another extension than TWCC's panics.
abbrev pub twcc_of : TwccLib → List (List ℕ) → Outcome ℕ
twcc_of twcc [] = ok 0
twcc_of twcc (ext ∷ exts) = elim (twcc ext) [ ok n ↦ ok n | _ ↦ panic ]

-- `rtpFormat`: the formatter's unwrapper, and the line. `now` is the time of the call.
unfoldable pub rtp_format : TwccLib → ℕ → Unwrapper → Packet → Outcome (Unwrapper × RtpLine)
unfolding unwrap
rtp_format twcc now seqnr pkt =
    let (seqnr', unwrapped) = unwrap seqnr pkt.sequence_number in
    (do
      twcc_nr ← twcc_of twcc pkt.extensions
      ok (
        seqnr',
        record {
          unix_milli = now;
          payload_type = pkt.payload_type;
          ssrc = pkt.ssrc;
          sequence_number = pkt.sequence_number;
          timestamp = pkt.timestamp;
          marker = pkt.marker;
          size = pkt.marshal_size;
          twcc_nr = twcc_nr;
          unwrapped_seq_nr = unwrapped;
        },
      ))

-- The loop of `rtcpFormat`, for the size and the types so far.
unfoldable add_all : ℕ → List String → List RtcpPacket → ℕ × List String
add_all size types [] = (size, types)
add_all size types (cc_feedback n ∷ pkts) = add_all (size + n) (types ++ "ccfb" ∷ []) pkts
add_all size types (transport_layer_cc n ∷ pkts) = add_all (size + n) (types ++ "twcc" ∷ []) pkts
add_all size types (raw n ∷ pkts) = add_all (size + n) (types ++ "raw" ∷ []) pkts
add_all size types (other ∷ pkts) = add_all size types pkts

unfoldable rtcp_format : ℕ → List RtcpPacket → RtcpLine
unfolding add_all
rtcp_format now pkts =
    let (size, types) = add_all 0 [] pkts in record { unix_milli = now; size = size; types = types }

-- The lines for the packets that one formatter gets, with the times of the calls.
unfoldable pub log_all : TwccLib → Unwrapper → List (ℕ × Packet) → Outcome (List RtpLine)
unfolding rtp_format
log_all twcc seqnr [] = ok []
log_all twcc seqnr ((now, pkt) ∷ pkts) = do
  (seqnr', line) ← rtp_format twcc now seqnr pkt
  lines ← log_all twcc seqnr' pkts
  ok (line ∷ lines)
