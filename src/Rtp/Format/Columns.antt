-- ===== src/Rtp/Format/Columns.antt =====
-- What the columns of the packet logs hold.
use rtp_over_quic.Base.{ℕ, ◌<◌, ◌≡◌, refl, ap, ◌∙◌, List, [], ◌∷◌, map, ok, All}
use rtp_over_quic.Base.Int.{ℤ, pos}
use rtp_over_quic.Rtp.Unwrapper.{Unwrapper, new_unwrapper, unwrap, unwrap_all}
use rtp_over_quic.Rtp.Unwrapper.Tracking.{Follows, wrapped, unwrap_all-wrapped}
use rtp_over_quic.Rtp.Format.{Packet, RtpLine, TwccLib, twcc_of, rtp_format, log_all}

-- The first header extension is TWCC's.
abbrev IsReadable : TwccLib → List (List ℕ) → Type 0
IsReadable twcc [] = Unit {0}
IsReadable twcc (ext ∷ exts) = (n : ℕ) × (twcc ext ≡ ok n)

abbrev sequence_numbers : List (ℕ × Packet) → List ℕ
sequence_numbers = map λ (now, pkt). pkt.sequence_number

abbrev pub indices : List RtpLine → List ℤ
indices = map λ line. line.unwrapped_seq_nr

module _ (twcc : TwccLib) where
  IsReadable-twcc_of :
      (exts : List (List ℕ)) → IsReadable twcc exts → (n : ℕ) × (twcc_of twcc exts ≡ ok n)
  IsReadable-twcc_of [] h = (0, refl)
  IsReadable-twcc_of (ext ∷ exts) (n, reads) = (n, rw (reads, twcc_of) refl)

  -- One line for each packet, with the results of one unwrapper.
  log_all-unwrap_all :
      (seqnr : Unwrapper) (pkts : List (ℕ × Packet))
      → All (λ (now, pkt). IsReadable twcc pkt.extensions) pkts
      → (lines : List RtpLine) × (log_all twcc seqnr pkts ≡ ok lines)
        × (indices lines ≡ unwrap_all seqnr (sequence_numbers pkts))
        × (map (λ line. line.sequence_number) lines ≡ sequence_numbers pkts)
  unfolding log_all rtp_format unwrap_all
  log_all-unwrap_all seqnr [] readable = ([], refl, refl, refl)
  log_all-unwrap_all seqnr ((now, pkt) ∷ pkts) (first, readable) =
      let (seqnr', index) = unwrap seqnr pkt.sequence_number in
      let (n, reads) = IsReadable-twcc_of pkt.extensions first in
      let (lines, logs, columns, numbers) = log_all-unwrap_all seqnr' pkts readable in
      let line : RtpLine = record {
        unix_milli = now;
        payload_type = pkt.payload_type;
        ssrc = pkt.ssrc;
        sequence_number = pkt.sequence_number;
        timestamp = pkt.timestamp;
        marker = pkt.marker;
        size = pkt.marshal_size;
        twcc_nr = n;
        unwrapped_seq_nr = index;
      } in
      (
        line ∷ lines,
        rw (reads, logs) refl,
        ap (◌∷◌ index) columns,
        ap (◌∷◌ pkt.sequence_number) numbers,
      )

  -- If the first header extension of every packet, where it has one, is TWCC's, and the packets
  -- carry a sender's indices modulo 65536, each less than 32768 away from the one before it: the
  -- log gets a line for each packet, and the last column is the sender's index.
  pub log_all-index :
      (pkts : List (ℕ × Packet)) (k : ℕ) (ks : List ℕ)
      → All (λ (now, pkt). IsReadable twcc pkt.extensions) pkts
      → sequence_numbers pkts ≡ wrapped (k ∷ ks)
      → k < 65536
      → Follows k ks
      → (lines : List RtpLine) × (log_all twcc new_unwrapper pkts ≡ ok lines)
        × (indices lines ≡ map pos (k ∷ ks))
        × (map (λ line. line.sequence_number) lines ≡ wrapped (k ∷ ks))
  log_all-index pkts k ks readable numbered small follows =
      let (lines, logs, columns, numbers) = log_all-unwrap_all new_unwrapper pkts readable in
      (
        lines,
        logs,
        columns ∙ (ap (unwrap_all new_unwrapper) numbered ∙ unwrap_all-wrapped k ks small follows),
        numbers ∙ numbered,
      )
