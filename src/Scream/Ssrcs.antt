-- ===== src/Scream/Ssrcs.antt =====
-- scream/sender_interceptor.go, `extractSSRCs`: the streams that a raw congestion control feedback
-- packet reports on.
pub mod Safety
pub mod Layout
use rtp_over_quic.Base.{
  ℕ, zero, suc, ◌+◌, ◌*◌, ◌%◌, List, [], ◌∷◌, ◌++◌, map, Option, none, some, Outcome, ok, err,
  panic, ◌>>=◌, ltb, ◌==◌, if◌then◌else◌, length, drop, mem_nat,
}
use rtp_over_quic.Base.Bytes.{uint16, uint32}

-- numReports, padded to an even number; uint16 arithmetic.
abbrev pub padded : ℕ → ℕ
padded n = if n % 2 == 0 then n else (n + 1) % 65536

-- The state of the loop: the map `uniqueSSRCs` by its keys, and `ssrcs`.
abbrev pub collect : ℕ → List ℕ × List ℕ → List ℕ × List ℕ
collect ssrc (unique, ssrcs) =
    if mem_nat ssrc unique then (unique, ssrcs) else (ssrc ∷ unique, ssrcs ++ ssrc ∷ [])

-- `none`: the fuel is used up. Go's test is `offset < len(packet)-4` on int.
unfoldable pub extract_loop : ℕ → List ℕ → ℕ → List ℕ × List ℕ → Option (Outcome (List ℕ))
extract_loop zero packet offset found = none
extract_loop (suc fuel) packet offset found =
    if ltb (offset + 4) (length packet)
    then elim (uint32 (drop offset packet)) [
      | none ↦ some panic
      | some ssrc ↦ elim (uint16 (drop (offset + 6) packet)) [
        | none ↦ some panic
        | some num_reports ↦
            extract_loop fuel packet (offset + 2 * padded num_reports + 8) (collect ssrc found)
      ]
    ]
    else some (ok found.1)

-- The offset grows by 8 at least in each round, so a round for each byte is enough.
unfoldable pub extract_ssrcs : List ℕ → Option (Outcome (List ℕ))
unfolding extract_loop
extract_ssrcs packet = extract_loop (suc (length packet)) packet 8 ([], [])

-- `extractSSRCsReport`, on the media SSRCs of the report blocks of a parsed report.
pub record ReportBlock : Type 0 where
  pub media_ssrc : ℕ
  pub begin_sequence : ℕ
  pub metrics : List (ℕ × ℕ)

unfoldable pub extract_ssrcs_report : List ReportBlock → List ℕ
extract_ssrcs_report blocks = map (λ block. block.media_ssrc) blocks
