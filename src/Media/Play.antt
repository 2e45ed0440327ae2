-- ===== src/Media/Play.antt =====
-- media/gstreamer.go, `GstreamerSource.Play`: the loop that turns the encoder's buffers into RTP
-- packets and writes them.
pub mod Marking
pub mod Handing
use rtp_over_quic.Base.{
  ℕ, ◌*◌, ◌/◌, ◌%◌, Bool, true, false, List, [], ◌∷◌, ◌++◌, map, Option, none, some, Outcome, ok,
  err, panic, if◌then◌else◌, String,
}
use Prim.Native.String.{◌++◌ as str_append}
use mathlib.Core.Option.{map as option_map}
use rtp_over_quic.Pion.{RtpLib, FloatLib, Attributes, no_attributes, of_reliability}
use rtp_over_quic.Media.Config.{Config, Payloader, payloader_for_codec}
use rtp_over_quic.Media.KeyFrame.{H264Lib, Answer, is, panics, waits, is_key_frame}

-- A header and its payload, of pion's `rtp.Packet`.
pub record Packet (r : RtpLib) : Type 0 where
  pub header : r.Header
  pub payload : List ℕ

-- pion's Packetizer, made for a payload type, an SSRC and a payloader, with the sequence numbers
-- that start at 0; `packetize` takes the MTU, the frame and the number of samples. And
-- `Packet.Unmarshal`.
pub record PacketLib (r : RtpLib) : Type 1 where
  pub Packetizer : Type 0
  pub new_packetizer : ℕ → ℕ → Payloader → Packetizer
  pub packetize : Packetizer → ℕ → List ℕ → ℕ → Packetizer × List (Packet r)
  pub unmarshal : List ℕ → Outcome (Packet r)

-- gstreamer.Buffer: its bytes, and its duration in nanoseconds.
pub record Buffer : Type 0 where
  pub bytes : List ℕ
  pub duration : ℕ

-- What the `select` finds: the source is stopped, the stream has ended, or a buffer.
pub data Input : Type 0 where
  stopped ended : Input
  buffer_of : Buffer → Input

-- A call of the RTP writer; `none` stands for nil attributes.
pub record Write (r : RtpLib) : Type 0 where
  pub packet : Packet r
  pub attributes : Option Attributes

-- The writer is an argument: the error that it returns for a packet, if it returns one, after the
-- packets that were written before.
abbrev pub Writer : RtpLib → Type 0
Writer r = List (Write r) → Write r → Option String

-- How `Play` stands: it waits for the next buffer, it has returned nil or an error, it has
-- panicked, or `isKeyFrame` never returns.
pub data Exit : Type 0 where
  playing returns_nil hangs panics_at : Exit
  returns_error : String → Exit

abbrev pub with_reliability : Bool → Attributes
with_reliability required = record no_attributes { reliability = some (of_reliability required) }

-- `math.MaxUint16` for a key frame.
abbrev pub frame_mtu : Config → Bool → ℕ
frame_mtu c key = if key then 65535 else c.mtu

module _ {r : RtpLib} where
  -- The loop over the packets of a frame: it ends with the first error.
  unfoldable pub write_packets :
      Writer r
      → Option Attributes
      → List (Write r)
      → List (Packet r)
      → List (Write r) × Option String
  write_packets writer attributes before [] = ([], none)
  write_packets writer attributes before (p ∷ ps) =
      let w : Write r = record { packet = p; attributes = attributes } in
      let rest = write_packets writer attributes (before ++ w ∷ []) ps in
      elim (writer before w) [
        | some e ↦ (w ∷ [], some e)
        | none ↦ (let (writes, error) = rest in (w ∷ writes, error))
      ]

-- `uint32((time.Duration(buffer.Duration).Seconds()) * float64(s.clockRate))`
unfoldable pub samples_of : FloatLib → Config → ℕ → ℕ
samples_of f c duration = f.to_uint32 (
    f.mul
      (f.add (f.of_nat (duration / 1_000_000_000))
        (f.div (f.of_nat (duration % 1_000_000_000)) (f.of_nat 1_000_000_000)))
      (f.of_nat c.clock_rate))

module _ {r : RtpLib} (f : FloatLib) (l : PacketLib r) (writer : Writer r) (c : Config) where
  -- One frame, for the answer of `isKeyFrame`: the packetizer and the packets that are written, and
  -- how `Play` ends, if it does.
  unfoldable pub send_frame :
      Answer → l.Packetizer → List (Write r) → Buffer → l.Packetizer × List (Write r) × Option Exit
  unfolding write_packets samples_of
  send_frame panics packetizer before b = (packetizer, [], some panics_at)
  send_frame waits packetizer before b = (packetizer, [], some hangs)
  send_frame (is key) packetizer before b =
      let (packetizer', packets) =
        l.packetize packetizer (frame_mtu c key) b.bytes (samples_of f c b.duration) in
      let (writes, error) = write_packets writer (some (with_reliability key)) before packets in
      (packetizer', writes, option_map returns_error error)

-- The rest of the loop, if there is one.
abbrev pub go_on :
    {r : RtpLib} → List (Write r) → Option Exit → List (Write r) × Exit → List (Write r) × Exit
go_on writes (some exit) later = (writes, exit)
go_on writes none (later, exit) = (writes ++ later, exit)

module _ {r : RtpLib} (f : FloatLib) (h : H264Lib) (l : PacketLib r) (writer : Writer r)
    (c : Config) where
  -- The loop of a source with its own packetizer.
  unfoldable pub play_frames : l.Packetizer → List (Write r) → List Input → List (Write r) × Exit
  unfolding send_frame
  play_frames packetizer before [] = ([], playing)
  play_frames packetizer before (stopped ∷ inputs) = ([], returns_nil)
  play_frames packetizer before (ended ∷ inputs) = ([], returns_nil)
  play_frames packetizer before (buffer_of b ∷ inputs) =
      let (packetizer', writes, ends) =
        send_frame f l writer c (is_key_frame h c.codec b.bytes) packetizer before b in
      go_on writes ends (play_frames packetizer' (before ++ writes) inputs)

  -- The loop of a source whose pipeline makes RTP packets.
  unfoldable play_packets : List (Write r) → List Input → List (Write r) × Exit
  unfolding write_packets
  play_packets before [] = ([], playing)
  play_packets before (stopped ∷ inputs) = ([], returns_nil)
  play_packets before (ended ∷ inputs) = ([], returns_nil)
  play_packets before (buffer_of b ∷ inputs) = elim (l.unmarshal b.bytes) [
    | err e ↦ ([], returns_error e)
    | panic ↦ ([], panics_at)
    | ok p ↦
        (let (writes, error) = write_packets writer none before (p ∷ []) in
          go_on writes (option_map returns_error error) (play_packets (before ++ writes) inputs))
  ]

  -- `Play`, for the flag `useGstPacketizer`.
  unfoldable pub play : Bool → List Input → List (Write r) × Exit
  unfolding play_frames play_packets
  play use_gst_packetizer inputs =
      if use_gst_packetizer then play_packets [] inputs else elim (payloader_for_codec c.codec) [
        | none ↦ (
          [],
          returns_error
              (str_append "the requested codec " (str_append c.codec " does not have a payloader")),
        )
        | some payloader ↦ play_frames (l.new_packetizer c.payload_type c.ssrc payloader) [] inputs
      ]

-- media/syncodec.go, `WriteFrame`: the packets of a frame, with nil attributes. An error of the
-- writer is only logged, and the next packet is written all the same.
unfoldable write_frame :
    {r : RtpLib} (f : FloatLib) (l : PacketLib r) (c : Config)
    → l.Packetizer
    → Buffer
    → l.Packetizer × List (Write r)
unfolding samples_of
write_frame f l c packetizer frame =
    let (packetizer', packets) =
      l.packetize packetizer c.mtu frame.bytes (samples_of f c frame.duration) in
    (packetizer', map (λ p. record { packet = p; attributes = none }) packets)
