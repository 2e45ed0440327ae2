-- ===== src/Scream/Sender/Streams.antt =====
-- Which streams the writer registers, what it does for each packet, and what unbinding comes to.
use rtp_over_quic.Base.{
  ℕ, ◌≡◌, refl, ap, sym, ◌∙◌, true, false, List, [], ◌∷◌, map, none, ◌≢◌, some, ok, panic, ◌>>=◌,
  All, ◌==◌, Bool-cases, inl, inr, arith, Option-cases,
}
use rtp_over_quic.Pion.{RtpLib, FloatLib}
use rtp_over_quic.Scream.Tx.{TxLib}
use rtp_over_quic.Scream.Ntp.{get_time_ntp}
use rtp_over_quic.Scream.Sender.{
  Channel, nil_channel, open_channel, closed_channel, is_closed, close_interceptor,
  bind_local_stream, close_channel, LocalStream, new_local_stream, Streams, lookup, delete, Act,
  registers, starts_loop, frames, signals_frame, Write, Writer, initialize, enqueue_frame,
  write_all, unbind_local_stream,
}

module _ {r : RtpLib} {f : FloatLib} (lib : TxLib r f) (ssrc : ℕ) where
  -- What the writer does for packets of a stream that is registered.
  abbrev pub framed : List (Write r) → List Act
  framed [] = []
  framed (p ∷ ps) =
      frames (get_time_ntp f p.now) (r.ssrc p.header) (r.packet_size p.header p.payload)
      ∷ signals_frame
      ∷ framed ps

  -- Every registered stream is as `BindLocalStream` makes it.
  abbrev IsBound : Streams → Type 0
  IsBound streams = All (λ (entry : ℕ × LocalStream). entry.1 ≡ new_local_stream) streams

  -- The writer after its first initialization.
  abbrev registered : f.Float → f.Float → f.Float → Writer lib → Writer lib
  registered least first most w = record w {
    initialized = true;
    streams = (ssrc, new_local_stream) ∷ delete ssrc w.streams;
    tx = lib.register_new_stream w.tx ssrc (f.of_nat 1) least first most;
  }

  initialize-again :
      (least first most : f.Float) (w : Writer lib)
      → w.initialized ≡ true
      → initialize lib ssrc least first most w ≡ (w, [])
  unfolding initialize
  initialize-again least first most w e = rw e refl

  initialize-first :
      (least first most : f.Float) (w : Writer lib)
      → w.initialized ≡ false
      → initialize lib ssrc least first most w
        ≡ (registered least first most w, registers ssrc ∷ starts_loop ssrc ∷ [])
  unfolding initialize
  initialize-first least first most w e = rw e refl

  write_all-initialized :
      (least first most : f.Float) (ps : List (Write r)) (w : Writer lib)
      → w.initialized ≡ true
      → ((write_all lib ssrc least first most ps w).1 ≡ framed ps)
        × ((write_all lib ssrc least first most ps w).2
            ≡ map (λ p. r.packet_size p.header p.payload) ps)
        × ((write_all lib ssrc least first most ps w).0.streams ≡ w.streams)
  unfolding write_all
  write_all-initialized least first most [] w e = (refl, refl, refl)
  write_all-initialized least first most (p ∷ ps) w e =
      let (acts, sizes, streams) =
        write_all-initialized least first most ps (enqueue_frame lib ssrc p w).0
          (unfold enqueue_frame in e) in
      rw (initialize-again least first most w e) (
        ap
            (λ acts.
              frames (get_time_ntp f p.now) (r.ssrc p.header) (r.packet_size p.header p.payload)
              ∷ signals_frame
              ∷ acts)
            acts,
        ap (◌∷◌ (r.packet_size p.header p.payload)) sizes,
        streams,
      )

  delete-IsBound : (k : ℕ) (streams : Streams) → IsBound streams → IsBound (delete k streams)
  delete-IsBound k [] bound = tt
  delete-IsBound k ((j, stream) ∷ rest) (here, bound) = elim (Bool-cases (j == k)) [
    | inl is ↦ rw is (delete-IsBound k rest bound)
    | inr not ↦ rw not (here, delete-IsBound k rest bound)
  ]

  pub write_all-IsBound :
      (least first most : f.Float) (ps : List (Write r)) (w : Writer lib)
      → IsBound w.streams
      → IsBound (write_all lib ssrc least first most ps w).0.streams
  unfolding write_all
  write_all-IsBound least first most [] w bound = bound
  write_all-IsBound least first most (p ∷ ps) w bound = elim (Bool-cases w.initialized) [
    | inl again ↦ rw (initialize-again least first most w again) (
        write_all-IsBound least first most ps (enqueue_frame lib ssrc p w).0
          (unfold enqueue_frame in bound))
    | inr not ↦ rw (initialize-first least first most w not) (
        write_all-IsBound least first most ps
          (enqueue_frame lib ssrc p (registered least first most w)).0
          (unfold enqueue_frame in (refl, delete-IsBound ssrc w.streams bound)))
  ]

  -- The first call of a new writer registers the stream under the SSRC that it was bound with and
  -- starts its pacing loop, before anything else; later calls do not. Each call, in order, tells
  -- the congestion control of a frame with the SSRC of the packet's header, wakes the pacing loop,
  -- and returns the size of the packet.
  pub write_all-acts :
      (least first most : f.Float) (p : Write r) (ps : List (Write r)) (w : Writer lib)
      → w.initialized ≡ false
      → let (w', acts, sizes) = write_all lib ssrc least first most (p ∷ ps) w in
        (acts ≡ registers ssrc ∷ starts_loop ssrc ∷ framed (p ∷ ps))
        × (sizes ≡ map (λ p. r.packet_size p.header p.payload) (p ∷ ps))
        × (lookup ssrc w'.streams ≡ some new_local_stream)
  unfolding write_all
  write_all-acts least first most p ps w e =
      let w' = (enqueue_frame lib ssrc p (registered least first most w)).0 in
      let (acts, sizes, streams) =
        write_all-initialized least first most ps w' (unfold enqueue_frame in refl) in
      let same : ssrc == ssrc ≡ true = ground arith in
      rw (initialize-first least first most w e) (
        ap
            (λ acts.
              registers ssrc
              ∷ starts_loop ssrc
              ∷ frames (get_time_ntp f p.now) (r.ssrc p.header) (r.packet_size p.header p.payload)
              ∷ signals_frame
              ∷ acts)
            acts,
        ap (◌∷◌ (r.packet_size p.header p.payload)) sizes,
        ap (lookup ssrc) streams ∙ rw same refl,
      )

lookup-bound :
    (ssrc : ℕ) (streams : Streams) (stream : LocalStream)
    → All (λ (entry : ℕ × LocalStream). entry.1 ≡ new_local_stream) streams
    → lookup ssrc streams ≡ some stream
    → stream ≡ new_local_stream
lookup-bound ssrc [] stream bound e = cc
lookup-bound ssrc ((k, s) ∷ rest) stream (here, bound) e = elim (Bool-cases (k == ssrc)) [
  | inl is ↦ let same : s ≡ stream = cc (rw is at e) in sym same ∙ here
  | inr not ↦ lookup-bound ssrc rest stream bound (rw not at e)
]

-- From an interceptor without streams, whatever one writer has sent, and for every SSRC:
-- `UnbindLocalStream` panics, since the channel that it closes was never made, or since there is no
-- stream.
unbind_local_stream-panic :
    {r : RtpLib} {f : FloatLib} (lib : TxLib r f) (bound_ssrc ssrc : ℕ) (least first most : f.Float)
    (ps : List (Write r)) (w : Writer lib)
    → w.streams ≡ []
    → unbind_local_stream ssrc (write_all lib bound_ssrc least first most ps w).0.streams ≡ panic
unfolding unbind_local_stream
unbind_local_stream-panic lib bound_ssrc ssrc least first most ps w empty =
    let streams = (write_all lib bound_ssrc least first most ps w).0.streams in
    let bound = write_all-IsBound lib bound_ssrc least first most ps w (rw empty tt) in
    elim (Option-cases (lookup ssrc streams)) [
      | inl absent ↦ rw (unbind_local_stream, absent) refl
      | inr (stream, found) ↦
          rw (unbind_local_stream, found)
            (ap (λ (s : LocalStream). close_channel s.close >>= λ closed. ok (delete ssrc streams))
              (lookup-bound ssrc streams stream bound found))
    ]

-- `Close` of an interceptor whose channel was made closes it, and may be called again without a
-- panic; from then on `BindLocalStream` returns the writer that it gets, while before it returns a
-- new one.
bind_local_stream-close_interceptor :
    {r : RtpLib} {f : FloatLib} (lib : TxLib r f) (close : Channel) (streams : Streams)
    (tx : lib.Tx)
    → close ≢ nil_channel
    → (close_interceptor close ≡ ok closed_channel)
      × (close_interceptor closed_channel ≡ ok closed_channel)
      × (bind_local_stream lib closed_channel streams tx ≡ none)
      × (bind_local_stream lib close streams tx ≡ none → close ≡ closed_channel)
unfolding close_interceptor bind_local_stream is_closed
bind_local_stream-close_interceptor lib nil_channel streams tx made = absurd (made refl)
bind_local_stream-close_interceptor lib open_channel streams tx made = (refl, refl, refl, λ e. cc e)
bind_local_stream-close_interceptor lib closed_channel streams tx made =
    (refl, refl, refl, λ e. refl)
