-- ===== src/Media/Play/Marking.antt =====
-- Which packets `Play` writes, and with which reliability.
use mathlib.Core.List.{append_assoc, append-nil}
use rtp_over_quic.Base.{
  ◌≡◌, refl, sym, ap, ◌∙◌, ◌≢◌, ◌⊎◌, Bool, true, false, List, [], ◌∷◌, ◌++◌, map, Option, none,
  some, Option-cases, inl, inr, String, if◌then◌else◌,
}
use mathlib.Core.Option.{map as option_map}
use rtp_over_quic.Pion.{RtpLib, FloatLib}
use rtp_over_quic.Media.Config.{Config, payloader_for_codec}
use rtp_over_quic.Media.KeyFrame.{H264Lib, Answer, is, panics, waits, is_key_frame}
use rtp_over_quic.Media.Play.{
  Packet, PacketLib, Buffer, Input, stopped, ended, buffer_of, Write, Writer, Exit, returns_error,
  with_reliability, frame_mtu, write_packets, samples_of, send_frame, play_frames, go_on, play,
}

-- A packet of a frame, with whether the frame is a key frame.
abbrev pub Tagged : RtpLib → Type 0
Tagged r = Bool × Packet r

-- The call that writes it.
abbrev pub call_of : {r : RtpLib} → Tagged r → Write r
call_of (key, p) = record { packet = p; attributes = some (with_reliability key) }

-- The answer for each of the packets.
abbrev tag_all : {r : RtpLib} → Bool → List (Packet r) → List (Tagged r)
tag_all key = map λ p. (key, p)

module _ {r : RtpLib} (f : FloatLib) (h : H264Lib) (l : PacketLib r) (c : Config) where
  -- A frame's packets, and whether the loop can go on behind them.
  unfoldable frame_packets : Answer → l.Packetizer → Buffer → l.Packetizer × List (Tagged r) × Bool
  frame_packets panics packetizer b = (packetizer, [], false)
  frame_packets waits packetizer b = (packetizer, [], false)
  frame_packets (is key) packetizer b =
      let (packetizer', packets) =
        l.packetize packetizer (frame_mtu c key) b.bytes (samples_of f c b.duration) in
      (packetizer', tag_all key packets, true)

  -- The packets of the frames, one frame after the other, without a writer that could fail.
  unfoldable packets_of : l.Packetizer → List Input → List (Tagged r)
  unfolding frame_packets
  packets_of packetizer [] = []
  packets_of packetizer (stopped ∷ inputs) = []
  packets_of packetizer (ended ∷ inputs) = []
  packets_of packetizer (buffer_of b ∷ inputs) =
      let (packetizer', packets, more) =
        frame_packets (is_key_frame h c.codec b.bytes) packetizer b in
      packets ++ (let later = packets_of packetizer' inputs in if more then later else [])

  unfoldable pub source_packets : List Input → List (Tagged r)
  unfolding packets_of
  source_packets inputs = elim (payloader_for_codec c.codec) [
    | none ↦ []
    | some payloader ↦ packets_of (l.new_packetizer c.payload_type c.ssrc payloader) inputs
  ]

module _ {r : RtpLib} where
  -- The calls are the first ones of the packets, and all of them unless an error ends the loop.
  abbrev pub AreFirst : List (Write r) × Exit → List (Tagged r) → Type 0
  AreFirst (writes, exit) tagged =
      (rest : List (Write r)) × (map call_of tagged ≡ writes ++ rest)
      × ((rest ≡ []) ⊎ ((e : String) × (exit ≡ returns_error e)))

  write_packets_first :
      (writer : Writer r) (key : Bool) (before : List (Write r)) (ps : List (Packet r))
      → let (writes, error) = write_packets writer (some (with_reliability key)) before ps in
        (rest : List (Write r)) × (map call_of (tag_all key ps) ≡ writes ++ rest)
        × ((rest ≡ []) ⊎ (error ≢ none))
  unfolding write_packets
  write_packets_first writer key before [] = ([], refl, inl refl)
  write_packets_first writer key before (p ∷ ps) =
      let w : Write r = record { packet = p; attributes = some (with_reliability key) } in
      let (rest, same, full) = write_packets_first writer key (before ++ w ∷ []) ps in
      elim (Option-cases (writer before w)) [
        | inl accepts ↦ rw (accepts, write_packets) (rest, ap (◌∷◌ w) same, full)
        | inr (e, fails) ↦
            rw (fails, write_packets) (map call_of (tag_all key ps), refl, inr (λ e. cc e))
      ]

  map-call_of-append :
      (xs ys : List (Tagged r)) → map call_of (xs ++ ys) ≡ map call_of xs ++ map call_of ys
  map-call_of-append [] ys = refl
  map-call_of-append (x ∷ xs) ys = ap (◌∷◌ (call_of x)) (map-call_of-append xs ys)

module _ {r : RtpLib} (f : FloatLib) (h : H264Lib) (l : PacketLib r) (writer : Writer r)
    (c : Config) where
  AreFirst-go_on :
      (writes : List (Write r)) (error : Option String) (now later : List (Tagged r))
      (more : List (Write r) × Exit) (rest : List (Write r))
      → map call_of now ≡ writes ++ rest
      → (rest ≡ []) ⊎ (error ≢ none)
      → AreFirst more later
      → AreFirst (go_on writes (option_map returns_error error) more) (now ++ later)
  AreFirst-go_on writes (some e) now later more rest same full first = (
    rest ++ map call_of later,
    map-call_of-append now later ∙ rw same (append_assoc writes rest (map call_of later)),
    inr (e, refl),
  )
  AreFirst-go_on writes none now later more rest same (inr error) first = absurd (error refl)
  AreFirst-go_on writes none now later (more, exit) rest same (inl full) (rest', same', full') = (
    rest',
    map-call_of-append now later
        ∙ rw (same, full, same', append-nil writes) (sym (append_assoc writes more rest')),
    full',
  )

  -- One frame, and whatever the loop does after it.
  send_frame-AreFirst :
      (answer : Answer) (packetizer : l.Packetizer) (before : List (Write r)) (b : Buffer)
      (inputs : List Input)
      → ((packetizer' : l.Packetizer) (before' : List (Write r))
          → AreFirst
              (play_frames f h l writer c packetizer' before' inputs)
              (packets_of f h l c packetizer' inputs))
      → let (p, writes, ends) = send_frame f l writer c answer packetizer before b in
        let (q, packets, more) = frame_packets f h l c answer packetizer b in
        AreFirst
          (go_on writes ends (play_frames f h l writer c p (before ++ writes) inputs))
          (packets ++ (if more then packets_of f h l c q inputs else []))
  unfolding send_frame frame_packets
  send_frame-AreFirst panics packetizer before b inputs next = ([], refl, inl refl)
  send_frame-AreFirst waits packetizer before b inputs next = ([], refl, inl refl)
  send_frame-AreFirst (is key) packetizer before b inputs next =
      let (packetizer', packets) =
        l.packetize packetizer (frame_mtu c key) b.bytes (samples_of f c b.duration) in
      let (writes, error) = write_packets writer (some (with_reliability key)) before packets in
      let (rest, same, full) = write_packets_first writer key before packets in
      AreFirst-go_on writes error (tag_all key packets) (packets_of f h l c packetizer' inputs) _
        rest same full (next packetizer' (before ++ writes))

  play_frames-AreFirst :
      (packetizer : l.Packetizer) (before : List (Write r)) (inputs : List Input)
      → AreFirst
          (play_frames f h l writer c packetizer before inputs)
          (packets_of f h l c packetizer inputs)
  unfolding play_frames packets_of
  play_frames-AreFirst packetizer before [] = ([], refl, inl refl)
  play_frames-AreFirst packetizer before (stopped ∷ inputs) = ([], refl, inl refl)
  play_frames-AreFirst packetizer before (ended ∷ inputs) = ([], refl, inl refl)
  play_frames-AreFirst packetizer before (buffer_of b ∷ inputs) =
      send_frame-AreFirst (is_key_frame h c.codec b.bytes) packetizer before b inputs
        λ packetizer' before'. play_frames-AreFirst packetizer' before' inputs

  -- A source with its own packetizer, whatever its writer answers: what it writes are the packets
  -- of its frames in order, from the first one on, each with the reliability REQUIRED if
  -- `isKeyFrame` takes its frame for a key frame and NOT_REQUIRED otherwise; and it writes all of
  -- them unless `Play` returns an error.
  pub play-AreFirst :
      (inputs : List Input)
      → AreFirst (play f h l writer c false inputs) (source_packets f h l c inputs)
  unfolding play source_packets
  play-AreFirst inputs = elim (Option-cases (payloader_for_codec c.codec)) [
    | inl lacks ↦ rw (lacks, source_packets, play) ([], refl, inl refl)
    | inr (payloader, has) ↦
        rw (has, source_packets, play)
          (play_frames-AreFirst (l.new_packetizer c.payload_type c.ssrc payloader) [] inputs)
  ]
