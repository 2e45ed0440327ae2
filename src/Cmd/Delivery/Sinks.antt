-- ===== src/Cmd/Delivery/Sinks.antt =====
-- What the media sinks of the receiver are given.
use rtp_over_quic.Base.{
  ℕ, ◌≡◌, refl, sym, ap, ◌∙◌, true, false, List, [], ◌∷◌, ◌++◌, map, Outcome, ok, err, panic,
  mem_nat, ◌==◌, if◌then◌else◌, Bool-cases, inl, inr, ==_iff, arith,
}
use mathlib.Core.List.{append_assoc, append-nil}
use rtp_over_quic.Base.Assoc.{update_key, keys, keys-update_key}
use rtp_over_quic.Pion.{RtpLib, Attributes, no_attributes}
use rtp_over_quic.Scream.Receiver.{bind_remote_stream}
use rtp_over_quic.Rtp.Registry.{
  Factory, dumps_sent_rtp, dumps_received_rtp, dumps_sent_rtcp, dumps_received_rtcp, twcc_sender,
  twcc_header_extension, gcc_estimator, scream_receiver, rfc8888_sender, scream_sender, Registry,
}
use rtp_over_quic.Scream.Queue.{Packet}
use rtp_over_quic.Scream.Ntp.{stream_support_scream}
use rtp_over_quic.Udp.Server.{Act, new_handler, receives}
use rtp_over_quic.Udp.Server.Routing.{received, IsRouted}
use rtp_over_quic.Cmd.Delivery.{
  Stream, new_stream, Reader, Packages, queue_read, sink_reader, scream_reader, bind_factory,
  bind_all, handle_acts, handle_packets,
}

-- The payloads of an address, in order.
abbrev pub sent_by : ℕ → List (ℕ × List ℕ) → List (List ℕ)
sent_by addr [] = []
sent_by addr ((from, buf) ∷ rest) =
    if from == addr then buf ∷ sent_by addr rest else sent_by addr rest

sent_by-cons :
    (addr : ℕ) (p : ℕ × List ℕ) (ps : List (ℕ × List ℕ))
    → sent_by addr (p ∷ ps) ≡ sent_by addr (p ∷ []) ++ sent_by addr ps
sent_by-cons addr (from, buf) ps = ground arith

module _ {r : RtpLib} where
  -- What the sink of an address has been given; nothing where the address has no stream.
  abbrev sink_of : ℕ → List (ℕ × Stream r) → List (List ℕ)
  sink_of addr [] = []
  sink_of addr ((from, s) ∷ rest) = if from == addr then s.sink else sink_of addr rest

  -- A reader that writes each buffer to the sink, once and whole.
  abbrev pub Writes : Reader r → Type 0
  Writes reader =
      (s : Stream r) (b : List ℕ) (a : Attributes) → (reader s b a).0.sink ≡ s.sink ++ b ∷ []

  -- The interceptor's reader calls the inner reader once, with the buffer, and leaves the sink
  -- alone otherwise.
  abbrev pub CallsOnce : (Reader r → Reader r) → Type 0
  CallsOnce layer = (inner : Reader r) → Writes inner → Writes (layer inner)

  queue_read-sink :
      (s : Stream r) (result : Outcome (ℕ × Attributes × Packet r))
      → (queue_read s result).0.sink ≡ s.sink
  queue_read-sink s (ok (n, attr, pkt)) = refl
  queue_read-sink s (err e) = refl
  queue_read-sink s panic = refl

  module _ (p : Packages r) where
    pub sink_reader-Writes : Writes (sink_reader p)
    unfolding sink_reader
    sink_reader-Writes s b a = refl

    scream_reader-CallsOnce : CallsOnce (scream_reader p)
    unfolding scream_reader
    scream_reader-CallsOnce inner writes s b a = queue_read-sink (inner s b a).0 _ ∙ writes s b a

    module _ (calls : (factory : Factory) → CallsOnce (p.bind factory)) where
      bind_factory-CallsOnce : (factory : Factory) → CallsOnce (bind_factory p factory)
      unfolding bind_factory bind_remote_stream stream_support_scream
      bind_factory-CallsOnce (scream_receiver interval) = scream_reader-CallsOnce
      bind_factory-CallsOnce (dumps_sent_rtp log) = calls (dumps_sent_rtp log)
      bind_factory-CallsOnce (dumps_received_rtp log) = calls (dumps_received_rtp log)
      bind_factory-CallsOnce (dumps_sent_rtcp log) = calls (dumps_sent_rtcp log)
      bind_factory-CallsOnce (dumps_received_rtcp log) = calls (dumps_received_rtcp log)
      bind_factory-CallsOnce (twcc_sender interval) = calls (twcc_sender interval)
      bind_factory-CallsOnce twcc_header_extension = calls twcc_header_extension
      bind_factory-CallsOnce (gcc_estimator least first) = calls (gcc_estimator least first)
      bind_factory-CallsOnce (rfc8888_sender interval) = calls (rfc8888_sender interval)
      bind_factory-CallsOnce (scream_sender least first) = calls (scream_sender least first)

      pub bind_all-Writes :
          (registry : Registry) (reader : Reader r)
          → Writes reader
          → Writes (bind_all p registry reader)
      unfolding bind_all
      bind_all-Writes [] reader writes = writes
      bind_all-Writes (factory ∷ factories) reader writes =
          bind_all-Writes factories (bind_factory p factory reader)
            (bind_factory-CallsOnce factory reader writes)

  sink_of-missing :
      (addr : ℕ) (streams : List (ℕ × Stream r))
      → mem_nat addr (keys streams) ≡ false
      → sink_of addr streams ≡ []
  sink_of-missing addr [] missing = refl
  sink_of-missing addr ((from, s) ∷ rest) missing = ground (arith, sink_of-missing addr rest)

  sink_of-update_key_other :
      (addr k : ℕ) (change : Stream r → Stream r) (streams : List (ℕ × Stream r))
      → (k == addr) ≡ false
      → sink_of addr (update_key k change streams) ≡ sink_of addr streams
  sink_of-update_key_other addr k change [] other = refl
  sink_of-update_key_other addr k change ((from, s) ∷ rest) other =
      ground (arith, sink_of-update_key_other addr k change rest)

  sink_of-update_key_self :
      (k : ℕ) (change : Stream r → Stream r) (b : List ℕ) (streams : List (ℕ × Stream r))
      → ((s : Stream r) → (change s).sink ≡ s.sink ++ b ∷ [])
      → mem_nat k (keys streams) ≡ true
      → sink_of k (update_key k change streams) ≡ sink_of k streams ++ b ∷ []
  sink_of-update_key_self k change b [] writes known = cc known
  sink_of-update_key_self k change b ((from, s) ∷ rest) writes known =
      elim (Bool-cases (from == k)) [
        | inl same ↦ rw same (writes s)
        | inr other ↦
            rw other
              (sink_of-update_key_self k change b rest writes (elsewhere k from rest other known))
      ]
    where
      elsewhere :
          (k from : ℕ) (rest : List (ℕ × Stream r))
          → (from == k) ≡ false
          → mem_nat k (from ∷ keys rest) ≡ true
          → mem_nat k (keys rest) ≡ true
      elsewhere k from rest other known = ground arith

  sink_of-update_key :
      (addr k : ℕ) (change : Stream r → Stream r) (b : List ℕ) (streams : List (ℕ × Stream r))
      → ((s : Stream r) → (change s).sink ≡ s.sink ++ b ∷ [])
      → mem_nat k (keys streams) ≡ true
      → sink_of addr (update_key k change streams)
        ≡ sink_of addr streams ++ sent_by addr ((k, b) ∷ [])
  sink_of-update_key addr k change b streams writes known = elim (Bool-cases (k == addr)) [
    | inl is ↦
        let same : k ≡ addr = (==_iff k addr).0 is in
        rw (is, ← same) (sink_of-update_key_self k change b streams writes known)
    | inr other ↦
        rw (other, sink_of-update_key_other addr k change streams other)
          (sym (append-nil (sink_of addr streams)))
  ]

  -- The streams that the server has made, and the sink of each.
  abbrev pub SinksFrom : Outcome (List (ℕ × Stream r)) → (ℕ → List (List ℕ)) → Type 0
  SinksFrom result given =
      (streams : List (ℕ × Stream r)) × (result ≡ ok streams)
      × ((addr : ℕ) → sink_of addr streams ≡ given addr)

  module _ (reader : Reader r) (writes : Writes reader) where
    pub handle_acts-sinks :
        (acts : List Act) (streams : List (ℕ × Stream r))
        → IsRouted (keys streams) acts
        → SinksFrom
            (handle_acts (ok reader) acts streams)
            (λ addr. sink_of addr streams ++ sent_by addr (received acts))
    unfolding handle_acts
    handle_acts-sinks [] streams routed =
        (streams, refl, λ addr. sym (append-nil (sink_of addr streams)))
    handle_acts-sinks (new_handler k ∷ acts) streams (fresh, routed) =
        let (after, made, given) = handle_acts-sinks acts ((k, new_stream r) ∷ streams) routed in
        (
          after,
          made,
          λ addr. given addr ∙ added addr k streams fresh (sent_by addr (received acts)),
        )
      where
        added :
            (addr k : ℕ) (streams : List (ℕ × Stream r))
            → mem_nat k (keys streams) ≡ false
            → (rest : List (List ℕ))
            → sink_of addr ((k, new_stream r) ∷ streams) ++ rest ≡ sink_of addr streams ++ rest
        added addr k streams fresh rest = ground (arith, sink_of-missing k streams)
    handle_acts-sinks (receives k buf ∷ acts) streams (known, routed) =
        let change = λ (s : Stream r). (reader s buf no_attributes).0 in
        let (after, made, given) =
          handle_acts-sinks acts (update_key k change streams)
            (rw (keys-update_key k change streams) routed) in
        (
          after,
          made,
          λ addr.
              given addr
              ∙ ap (λ (sink : List (List ℕ)). sink ++ sent_by addr (received acts))
                  (sink_of-update_key addr k change buf streams (λ s. writes s buf no_attributes)
                    known)
              ∙ append_assoc (sink_of addr streams) _ _
              ∙ ap (λ (more : List (List ℕ)). sink_of addr streams ++ more)
                  (sym (sent_by-cons addr (k, buf) (received acts))),
        )

  -- One handler, on its packets.
  pub handle_packets-sink :
      (reader : Reader r) (ps : List (List ℕ × Attributes)) (s : Stream r)
      → Writes reader
      → (handle_packets reader ps s).sink ≡ s.sink ++ map (λ p. p.0) ps
  unfolding handle_packets
  handle_packets-sink reader [] s writes = sym (append-nil s.sink)
  handle_packets-sink reader ((b, a) ∷ ps) s writes =
      handle_packets-sink reader ps (reader s b a).0 writes
      ∙ ap (λ (sink : List (List ℕ)). sink ++ map (λ p. p.0) ps) (writes s b a)
      ∙ append_assoc s.sink _ _
