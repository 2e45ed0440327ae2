-- ===== src/Cmd/Delivery/Queued.antt =====
-- From the transport to scream-go's receiver: the packets of a stream go through the reader of
-- SCReAM's interceptor into its channel, and its goroutine hands them on. `addStream` binds the
-- stream with the SSRC 0.
use rtp_over_quic.Base.{
  ℕ, ◌≡◌, refl, sym, ap, ◌∙◌, List, [], ◌∷◌, ◌++◌, map, none, some, Option-cases, inl, inr,
  if◌then◌else◌, mem_nat, All, length, take_all, Bool-cases, arith,
}
use mathlib.Core.List.{append_assoc, append-nil}
use rtp_over_quic.Pion.{RtpLib, FloatLib, Attributes}
use rtp_over_quic.Scream.Queue.{Packet, size_of}
use rtp_over_quic.Scream.Ntp.{stream_support_scream}
use rtp_over_quic.Scream.Receiver.{
  RxLib, Event, arrives, ticks, binds, unbinds, closes, loop_leaves, ticker_leaves, new_receiver,
  step, run, read_rtp, bind_remote_stream,
}
use rtp_over_quic.Scream.Receiver.Arrivals.{received, arrivals_for, IsSteady, run-received}
use rtp_over_quic.Rtp.Registry.{scream_receiver}
use rtp_over_quic.Cmd.Delivery.{
  Stream, new_stream, Reader, Packages, scream_reader, bind_factory, handle_packets,
}

-- A call of `Receive` without its time.
abbrev pub untimed : ℕ × ℕ × ℕ × ℕ → ℕ × ℕ × ℕ
untimed (t, ssrc, size, seq) = (ssrc, size, seq)

module _ {r : RtpLib} where
  -- The packets that `loop` takes from the channel.
  abbrev pub taken : List (Event r) → List (Packet r)
  taken [] = []
  taken (arrives p now ∷ es) = p ∷ taken es
  taken (_ ∷ es) = taken es

  abbrev pub seen : Packet r → ℕ × ℕ × ℕ
  seen q = (r.ssrc q.header, size_of q, r.sequence_number q.header)

  -- The packets with the SSRC 0, with their sizes and sequence numbers.
  abbrev of_zero : List (Packet r) → List (ℕ × ℕ × ℕ)
  of_zero [] = []
  of_zero (q ∷ qs) =
      let rest = of_zero qs in if mem_nat (r.ssrc q.header) (0 ∷ []) then seen q ∷ rest else rest

  -- Every `Read` takes the whole buffer, and leaves the channel alone.
  abbrev pub TakesAll : Reader r → Type 0
  TakesAll inner =
      (s : Stream r) (b : List ℕ) (a : Attributes)
      → (a' : Attributes) × ((inner s b a).1 ≡ some (length b, a'))
        × ((inner s b a).0.queued ≡ s.queued)

  of_zero-append :
      (front back : List (Packet r)) → of_zero (front ++ back) ≡ of_zero front ++ of_zero back
  of_zero-append [] back = refl
  of_zero-append (q ∷ front) back = elim (Bool-cases (mem_nat (r.ssrc q.header) (0 ∷ []))) [
    | inl zero_is ↦ rw zero_is (ap (◌∷◌ (seen q)) (of_zero-append front back))
    | inr other ↦ rw other (of_zero-append front back)
  ]

  arrivals_for-taken :
      (f : FloatLib) (es : List (Event r))
      → map untimed (arrivals_for f (0 ∷ []) es) ≡ of_zero (taken es)
  arrivals_for-taken f [] = refl
  arrivals_for-taken f (arrives q now ∷ es) =
      elim (Bool-cases (mem_nat (r.ssrc q.header) (0 ∷ []))) [
        | inl zero_is ↦ rw zero_is (ap (◌∷◌ (seen q)) (arrivals_for-taken f es))
        | inr other ↦ rw other (arrivals_for-taken f es)
      ]
  arrivals_for-taken f (ticks now ∷ es) = arrivals_for-taken f es
  arrivals_for-taken f (binds ssrc ∷ es) = arrivals_for-taken f es
  arrivals_for-taken f (unbinds ssrc ∷ es) = arrivals_for-taken f es
  arrivals_for-taken f (closes ∷ es) = arrivals_for-taken f es
  arrivals_for-taken f (loop_leaves ∷ es) = arrivals_for-taken f es
  arrivals_for-taken f (ticker_leaves ∷ es) = arrivals_for-taken f es

  module _ (p : Packages r) where
    -- The buffers that parse, to a packet with the SSRC 0.
    abbrev pub fed_by : List (List ℕ) → List (ℕ × ℕ × ℕ)
    fed_by [] = []
    fed_by (b ∷ bs) =
        let rest = fed_by bs in
        elim (p.unmarshal b) [
          | none ↦ rest
          | some (header, payload) ↦
              of_zero (
                record { header = header; payload = payload; timestamp = 0; attributes = none }
                ∷ [])
              ++ rest
        ]

    fed_by-cons : (b : List ℕ) (bs : List (List ℕ)) → fed_by (b ∷ bs) ≡ fed_by (b ∷ []) ++ fed_by bs
    fed_by-cons b bs = elim (Option-cases (p.unmarshal b)) [
      | inl unparsed ↦ rw (fed_by, unparsed) refl
      | inr ((header, payload), parsed) ↦
          rw (fed_by, parsed) (ap (λ front. front ++ fed_by bs) (sym (append-nil _)))
    ]

    -- One packet.
    scream_reader-queued :
        (inner : Reader r) (s : Stream r) (b : List ℕ) (a : Attributes)
        → TakesAll inner
        → of_zero (scream_reader p inner s b a).0.queued ≡ of_zero s.queued ++ fed_by (b ∷ [])
    unfolding scream_reader read_rtp
    scream_reader-queued inner s b a takes =
        let (a', result, same) = takes s b a in
        let all = take_all (length b) b (omega arith) in
        elim (Option-cases (p.unmarshal b)) [
          | inl unparsed ↦
              rw (scream_reader, result, all, unparsed)
                (rw (fed_by, same, unparsed) (sym (append-nil _)))
          | inr ((header, payload), parsed) ↦
              rw (scream_reader, result, all, parsed)
                (rw (fed_by, same, parsed)
                  (of_zero-append s.queued _ ∙ ap (◌++◌ (of_zero s.queued)) (sym (append-nil _))))
        ]

    handle_packets-queued :
        (inner : Reader r) (ps : List (List ℕ × Attributes)) (s : Stream r)
        → TakesAll inner
        → of_zero (handle_packets (scream_reader p inner) ps s).queued
          ≡ of_zero s.queued ++ fed_by (map (λ p. p.0) ps)
    unfolding handle_packets
    handle_packets-queued inner [] s takes = sym (append-nil _)
    handle_packets-queued inner ((b, a) ∷ ps) s takes =
        let front = scream_reader-queued inner s b a takes in
        let back = handle_packets-queued inner ps (scream_reader p inner s b a).0 takes in
        back
        ∙ rw front (
            append_assoc (of_zero s.queued) (fed_by (b ∷ [])) (fed_by (map (λ p. p.0) ps))
            ∙ ap (◌++◌ (of_zero s.queued)) (sym (fed_by-cons b (map (λ p. p.0) ps))))

    -- `addStream` and SCReAM's interceptor together, with --rtcp-feedback rfc8888, when the readers
    -- of the interceptors inside take each buffer whole: after the stream is bound, whatever the
    -- ticker does, scream-go's receiver gets the packets that the transport hands over, once and in
    -- order, with their sizes and sequence numbers: those that parse and have the SSRC 0, and no
    -- others.
    pub handle_packets-received :
        (f : FloatLib) (x : RxLib) (interval : ℕ) (inner : Reader r)
        (ps : List (List ℕ × Attributes)) (es : List (Event r))
        → TakesAll inner
        → All IsSteady es
        → let reader = bind_factory p (scream_receiver interval) inner in
          let bound = (step {r = r} f x interval (new_receiver x) (binds 0)).0 in
          taken es ≡ (handle_packets reader ps (new_stream r)).queued
          → map untimed (received (run f x interval bound es).1) ≡ fed_by (map (λ p. p.0) ps)
    unfolding bind_factory bind_remote_stream stream_support_scream step
    handle_packets-received f x interval inner ps es takes steady queued =
        let bound = (step {r = r} f x interval (new_receiver x) (binds 0)).0 in
        ap (map untimed) (run-received f x interval bound es steady (λ e. cc e))
        ∙ arrivals_for-taken f es
        ∙ ap of_zero queued
        ∙ handle_packets-queued inner ps (new_stream r) takes
