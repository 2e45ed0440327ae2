-- ===== src/Scream/Ssrcs/Safety.antt =====
-- `extractSSRCs` ends on every input, and reads inside the packet where RTCP allows its length.
use rtp_over_quic.Base.{
  ℕ, zero, suc, ◌+◌, ◌*◌, ◌%◌, ◌<◌, ◌≡◌, ◌≢◌, List, [], Option, none, some, Outcome, ok, arith,
  length, drop, length-drop, ltb, Bool-cases, inl, inr, Option-cases, ltb→lt,
}
use rtp_over_quic.Base.Bytes.{uint16, uint32, uint16-some, uint32-some}
use rtp_over_quic.Scream.Ssrcs.{extract_loop, extract_ssrcs, padded, collect}

abbrev next : ℕ → ℕ → ℕ
next offset num_reports = offset + 2 * padded num_reports + 8

extract_loop_total :
    (fuel : ℕ) (packet : List ℕ) (offset : ℕ) (found : List ℕ × List ℕ)
    → length packet < fuel + offset
    → 0 < fuel
    → extract_loop fuel packet offset found ≢ none
unfolding extract_loop
extract_loop_total zero packet offset found h pos = absurd (omega arith)
extract_loop_total (suc fuel) packet offset found h pos =
    elim (Bool-cases (ltb (offset + 4) (length packet))) [
      | inr e ↦ rw e (λ p. cc)
      | inl e ↦ elim (Option-cases (uint32 (drop offset packet))) [
        | inl n ↦ rw (e, n) (λ p. cc)
        | inr (ssrc, s) ↦ elim (Option-cases (uint16 (drop (offset + 6) packet))) [
          | inl n ↦ rw (e, s, n) (λ p. cc)
          | inr (k, t) ↦
              rw (e, s, t)
                (extract_loop_total fuel packet (next offset k) (collect ssrc found)
                  (omega (arith, ltb→lt)) (omega (arith, ltb→lt)))
        ]
      ]
    ]

-- The loop of `extractSSRCs` ends on every packet.
extract_ssrcs_total : (packet : List ℕ) → extract_ssrcs packet ≢ none
unfolding extract_ssrcs
extract_ssrcs_total packet =
    extract_loop_total (suc (length packet)) packet 8 ([], []) (omega arith) (omega arith)

abbrev pub Returns : Option (Outcome (List ℕ)) → Type 0
Returns r = (ssrcs : List ℕ) × (r ≡ some (ok ssrcs))

next-mod : (offset k : ℕ) → offset % 4 ≡ 0 → next offset k % 4 ≡ 0
next-mod offset k h = ground arith

extract_loop-Returns :
    (fuel : ℕ) (packet : List ℕ) (offset : ℕ) (found : List ℕ × List ℕ)
    → length packet % 4 ≡ 0
    → offset % 4 ≡ 0
    → length packet < fuel + offset
    → 0 < fuel
    → Returns (extract_loop fuel packet offset found)
unfolding extract_loop
extract_loop-Returns zero packet offset found hl ho h pos = absurd (omega arith)
extract_loop-Returns (suc fuel) packet offset found hl ho h pos =
    elim (Bool-cases (ltb (offset + 4) (length packet))) [
      | inr e ↦ (found.1, rw e)
      | inl e ↦
          let (ssrc, s) =
            uint32-some (drop offset packet) (omega (arith, ltb→lt, length-drop offset packet)) in
          let (k, t) =
            uint16-some (drop (offset + 6) packet)
              (omega (arith, ltb→lt, length-drop (offset + 6) packet)) in
          rw (e, s, t)
            (extract_loop-Returns fuel packet (next offset k) (collect ssrc found) hl
              (next-mod offset k ho) (omega (arith, ltb→lt)) (omega (arith, ltb→lt)))
    ]

-- Where the length of the packet is a multiple of 4, as RTCP has it, `extractSSRCs` returns,
-- whatever the content: no slice expression is out of range.
pub extract_ssrcs-Returns :
    (packet : List ℕ) → length packet % 4 ≡ 0 → Returns (extract_ssrcs packet)
unfolding extract_ssrcs
extract_ssrcs-Returns packet h =
    extract_loop-Returns (suc (length packet)) packet 8 ([], []) h (omega arith) (omega arith)
      (omega arith)
