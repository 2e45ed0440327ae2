-- ===== src/Scream/Ssrcs/Layout.antt =====
-- `extractSSRCs` against the layout of an RFC 8888 feedback packet: eight bytes, the report blocks,
-- and a timestamp of four bytes. A block is the SSRC, the first sequence number and the number of
-- reports, and two bytes for each report, padded to a multiple of four bytes.
use rtp_over_quic.Base.{
  ℕ, zero, suc, ◌+◌, ◌*◌, ◌%◌, ◌≤◌, ◌<◌, ◌^◌, ◌≡◌, sym, ap, List, [], ◌∷◌, ◌++◌, some, ok, arith,
  length, drop, Bool-cases, inl, inr, lt→ltb, mem_nat, if◌then◌else◌, ◌==◌, All, length-append,
  drop-append_self,
}
use rtp_over_quic.Base.Bytes.{uint16, uint32, put_uint16, put_uint32, drop-add}
use rtp_over_quic.Scream.Ssrcs.{
  extract_loop, extract_ssrcs, padded, collect, ReportBlock, extract_ssrcs_report,
}
use mathlib.Core.Path.{subst}
use mathlib.Core.List.{append_assoc, append-nil}

abbrev put_metrics : List (ℕ × ℕ) → List ℕ
put_metrics [] = []
put_metrics ((a, b) ∷ ms) = a ∷ b ∷ put_metrics ms

abbrev padding : ℕ → List ℕ
padding n = if n % 2 == 0 then [] else (0 ∷ 0 ∷ [])

abbrev put_block : ReportBlock → List ℕ
put_block b =
    put_uint32 b.media_ssrc
    ++ (put_uint16 b.begin_sequence
        ++ (put_uint16 (length b.metrics) ++ (put_metrics b.metrics ++ padding (length b.metrics))))

abbrev put_blocks : List ReportBlock → List ℕ
put_blocks [] = []
put_blocks (b ∷ bs) = put_block b ++ put_blocks bs

-- The ranges of the fields; a block has at most 65534 reports.
abbrev IsBlock : ReportBlock → Type 0
IsBlock b = (b.media_ssrc < 2 ^ 32) × (length b.metrics < 65535)

-- The first occurrence of each number that is not in `seen`.
abbrev distinct : List ℕ → List ℕ → List ℕ
distinct seen [] = []
distinct seen (x ∷ xs) = if mem_nat x seen then distinct seen xs else x ∷ distinct (x ∷ seen) xs

length-put_metrics : (ms : List (ℕ × ℕ)) → length (put_metrics ms) ≡ 2 * length ms
length-put_metrics [] = omega arith
length-put_metrics ((a, b) ∷ ms) = omega (arith, length-put_metrics ms)

length-put_block :
    (b : ReportBlock)
    → length b.metrics < 65535
    → length (put_block b) ≡ 2 * padded (length b.metrics) + 8
length-put_block b h =
    let n = length b.metrics in
    ground (arith, length-append (put_metrics b.metrics) (padding n), length-put_metrics b.metrics)

collect-distinct :
    (ssrc : ℕ) (found : List ℕ × List ℕ) (more : List ℕ)
    → found.1 ++ distinct found.0 (ssrc ∷ more)
      ≡ (collect ssrc found).1 ++ distinct (collect ssrc found).0 more
collect-distinct ssrc (unique, ssrcs) more = elim (Bool-cases (mem_nat ssrc unique)) [
  | inl e ↦ rw e
  | inr e ↦ rw e (sym (append_assoc ssrcs (ssrc ∷ []) _))
]

-- One round, at the start of a block.
extract_loop-block :
    (fuel : ℕ) (front : List ℕ) (b : ReportBlock) (rest : List ℕ) (found : List ℕ × List ℕ)
    → IsBlock b
    → extract_loop (suc fuel) (front ++ (put_block b ++ rest)) (length front) found
      ≡ extract_loop fuel
          (front ++ (put_block b ++ rest))
          (length front + length (put_block b))
          (collect b.media_ssrc found)
unfolding extract_loop
extract_loop-block fuel front b rest found (hs, hn) =
    rw (lt→ltb _ _ long, at_ssrc, at_count)
      (rw (length-put_block b hn)
        (ap (λ k. extract_loop fuel packet k (collect b.media_ssrc found)) (omega arith)))
  where
    packet : List ℕ
    packet = front ++ (put_block b ++ rest)

    long : length front + 4 < length packet
    long = omega (arith, length-append front (put_block b ++ rest))

    at_ssrc : uint32 (drop (length front) packet) ≡ some b.media_ssrc
    at_ssrc = rw (drop-append_self front) (ap some (omega arith))

    at_count : uint16 (drop (length front + 6) packet) ≡ some (length b.metrics)
    at_count = rw (drop-add (length front) 6 packet, drop-append_self front) (ap some (omega arith))

extract_loop-blocks :
    (fuel : ℕ) (front : List ℕ) (bs : List ReportBlock) (timestamp : List ℕ)
    (found : List ℕ × List ℕ)
    → length bs < fuel
    → length timestamp ≡ 4
    → All IsBlock bs
    → extract_loop fuel (front ++ (put_blocks bs ++ timestamp)) (length front) found
      ≡ some (ok (found.1 ++ distinct found.0 (extract_ssrcs_report bs)))
extract_loop-blocks zero front bs timestamp found h ht fit = absurd (omega arith)
extract_loop-blocks (suc fuel) front [] timestamp found h ht fit =
    unfold extract_loop extract_ssrcs_report in
    (ground (arith, append-nil found.1, length-append front timestamp))
extract_loop-blocks (suc fuel) front (b ∷ bs) timestamp found h ht (fb, fbs) =
    rw
      (
        append_assoc (put_block b),
        extract_loop-block fuel front b (put_blocks bs ++ timestamp) found fb,
        ← length-append front (put_block b),
        ← append_assoc front (put_block b),
        extract_loop-blocks fuel (front ++ put_block b) bs timestamp (collect b.media_ssrc found)
            (omega arith) ht fbs,
      )
      (ap (λ l. some (ok l))
        (unfold extract_ssrcs_report in
          sym (collect-distinct b.media_ssrc found (extract_ssrcs_report bs))))

length-le-put_blocks : (bs : List ReportBlock) → length bs ≤ length (put_blocks bs)
length-le-put_blocks [] = omega arith
length-le-put_blocks (b ∷ bs) =
    omega (arith, length-append (put_block b) (put_blocks bs), length-le-put_blocks bs)

-- On a feedback packet with an eight-byte front, blocks in the layout of RFC 8888 with at most
-- 65534 reports each, and a four-byte timestamp, `extractSSRCs` returns what `extractSSRCsReport`
-- returns on the parsed blocks, with each SSRC kept at its first place only.
pub extract_ssrcs-put_blocks :
    (front : List ℕ) (bs : List ReportBlock) (timestamp : List ℕ)
    → length front ≡ 8
    → length timestamp ≡ 4
    → All IsBlock bs
    → extract_ssrcs (front ++ (put_blocks bs ++ timestamp))
      ≡ some (ok (distinct [] (extract_ssrcs_report bs)))
unfolding extract_ssrcs
extract_ssrcs-put_blocks front bs timestamp hf ht fit =
    let packet = front ++ (put_blocks bs ++ timestamp) in
    subst
      (λ offset.
        extract_loop (suc (length packet)) packet offset ([], [])
        ≡ some (ok (distinct [] (extract_ssrcs_report bs))))
      hf
      (extract_loop-blocks (suc (length packet)) front bs timestamp ([], [])
        (omega (
          arith,
          length-append front (put_blocks bs ++ timestamp),
          length-append (put_blocks bs) timestamp,
          length-le-put_blocks bs,
        ))
        ht fit)
