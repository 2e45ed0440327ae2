-- ===== src/Scream/Sender.antt =====
-- scream/sender_interceptor.go: `BindLocalStream` with the writer that it returns,
-- `UnbindLocalStream` and `GetTargetBitrate`. The writer is modelled up to its sends on the channel
-- `newFrame`, which the pacing loop receives.
pub mod Streams
use rtp_over_quic.Base.{
  ℕ, ◌≡◌, refl, ap, sym, ◌∙◌, Bool, true, false, List, [], ◌∷◌, ◌++◌, map, Option, none, some,
  Outcome, ok, err, panic, ◌>>=◌, if◌then◌else◌, All, ◌==◌, Bool-cases, ◌⊎◌, inl, inr, arith,
  length, Option-cases,
}
use rtp_over_quic.Pion.{RtpLib, FloatLib, Attributes}
use rtp_over_quic.Scream.Queue.{Packet, Queue, new_queue, enqueue, size_of}
use rtp_over_quic.Scream.Tx.{TxLib}
use rtp_over_quic.Scream.Ntp.{get_time_ntp}
use rtp_over_quic.Scream.Pacing.{clear_if}

-- A channel may be nil; an open one is closed once.
pub data Channel : Type 0 where
  nil_channel open_channel closed_channel : Channel

-- `close(c)`: closing a nil or a closed channel panics.
abbrev pub close_channel : Channel → Outcome Channel
close_channel open_channel = ok closed_channel
close_channel nil_channel = panic
close_channel closed_channel = panic

-- The channels of a localStream; its queue is the writer's.
pub record LocalStream : Type 0 where
  pub new_frame : Channel
  pub new_feedback : Channel
  pub close : Channel

-- The literal in `BindLocalStream` has no `close`.
abbrev pub new_local_stream : LocalStream
new_local_stream = record {
  new_frame = open_channel;
  new_feedback = open_channel;
  close = nil_channel;
}

-- The map `rtpStreams`.
abbrev pub Streams : Type 0
Streams = List (ℕ × LocalStream)

abbrev pub lookup : ℕ → Streams → Option LocalStream
lookup ssrc [] = none
lookup ssrc ((k, stream) ∷ rest) = if k == ssrc then some stream else lookup ssrc rest

abbrev pub delete : ℕ → Streams → Streams
delete ssrc [] = []
delete ssrc ((k, stream) ∷ rest) =
    let others = delete ssrc rest in if k == ssrc then others else (k, stream) ∷ others

-- What a call of the writer does besides enqueueing.
pub data Act : Type 0 where
  registers starts_loop : ℕ → Act
  -- `NewMediaFrame` with the time, the SSRC of the header and the size.
  frames : ℕ → ℕ → ℕ → Act
  signals_frame : Act

-- What a caller of the writer gives: the time of the call, the header, the payload and the
-- attributes.
pub record Write (r : RtpLib) : Type 0 where
  pub now : ℕ
  pub header : r.Header
  pub payload : List ℕ
  pub attributes : Option Attributes

-- The variables of the writer's closure, and what it changes in the interceptor.
pub record Writer {r : RtpLib} {f : FloatLib} (lib : TxLib r f) : Type 0 where
  pub initialized : Bool
  pub queue : Queue r f
  pub streams : Streams
  pub tx : lib.Tx

abbrev packet_of : {r : RtpLib} → Write r → Packet r
packet_of p = record {
  header = p.header;
  payload = p.payload;
  timestamp = p.now;
  attributes = p.attributes;
}

module _ {r : RtpLib} {f : FloatLib} (lib : TxLib r f) (ssrc : ℕ) where
  -- `if !initialized { … }`, with the three bitrates of the interceptor.
  unfoldable pub initialize : f.Float → f.Float → f.Float → Writer lib → Writer lib × List Act
  initialize least first most w = if w.initialized then (w, []) else (
    record w {
      initialized = true;
      streams = (ssrc, new_local_stream) ∷ delete ssrc w.streams;
      tx = lib.register_new_stream w.tx ssrc (f.of_nat 1) least first most;
    },
    registers ssrc ∷ starts_loop ssrc ∷ [],
  )

  -- The rest of the writer: the new state, what it does, and the size that it returns.
  unfoldable pub enqueue_frame : Write r → Writer lib → Writer lib × List Act × ℕ
  enqueue_frame p w =
      let t = get_time_ntp f p.now in
      let size = r.packet_size p.header p.payload in
      let queue = enqueue (packet_of p) (f.div (f.of_nat t) (f.of_nat 65536)) w.queue in
      let (tx, clears) = lib.new_media_frame w.tx t (r.ssrc p.header) size queue in
      (
        record w { queue = (clear_if clears queue).0; tx = tx },
        frames t (r.ssrc p.header) size ∷ signals_frame ∷ [],
        size,
      )

  unfoldable pub write :
      f.Float → f.Float → f.Float → Write r → Writer lib → Writer lib × List Act × ℕ
  unfolding initialize enqueue_frame
  write least first most p w =
      let (w', init) = initialize least first most w in
      let (w'', acts, size) = enqueue_frame p w' in (w'', init ++ acts, size)

  -- The calls of the writer, one after the other.
  unfoldable pub write_all :
      f.Float → f.Float → f.Float → List (Write r) → Writer lib → Writer lib × List Act × List ℕ
  unfolding write
  write_all least first most [] w = (w, [], [])
  write_all least first most (p ∷ ps) w =
      let (w', acts, size) = write least first most p w in
      let (w'', more, sizes) = write_all least first most ps w' in (w'', acts ++ more, size ∷ sizes)

-- `isClosed`, on the interceptor's channel `close`.
unfoldable pub is_closed : Channel → Bool
is_closed closed_channel = true
is_closed nil_channel = false
is_closed open_channel = false

-- `Close`, without its wait for the pacing loops.
unfoldable pub close_interceptor : Channel → Outcome Channel
unfolding is_closed
close_interceptor c = if is_closed c then ok c else close_channel c

-- `BindLocalStream`: a new writer with an empty queue, or `none` for the writer that was passed in.
unfoldable pub bind_local_stream :
    {r : RtpLib} {f : FloatLib} (lib : TxLib r f) → Channel → Streams → lib.Tx → Option (Writer lib)
unfolding is_closed
bind_local_stream lib close streams tx =
    if is_closed close
    then none
    else some (record { initialized = false; queue = new_queue; streams = streams; tx = tx })

-- `UnbindLocalStream`: a stream that is not there is a nil pointer.
unfoldable pub unbind_local_stream : ℕ → Streams → Outcome Streams
unbind_local_stream ssrc streams = elim (lookup ssrc streams) [
  | none ↦ panic
  | some stream ↦ (do closed ← close_channel stream.close; ok (delete ssrc streams))
]

-- `GetTargetBitrate`: the target as the congestion control has it, before its conversion to int.
unfoldable pub get_target_bitrate :
    {r : RtpLib} {f : FloatLib} (lib : TxLib r f) → ℕ → Streams → lib.Tx → Outcome f.Float
get_target_bitrate lib ssrc streams tx = elim (lookup ssrc streams) [
  | none ↦ err "unknown SSRC, the stream may be unsupported or not yet registered"
  | some stream ↦ ok (lib.get_target_bitrate tx ssrc)
]
