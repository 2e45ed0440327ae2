-- ===== src/Scream/Statistics.antt =====
-- scream/sender_interceptor.go, `GetStats`, and what rtp/bandwidth_estimator.go logs of it. The
-- text of the statistics is scream-go's; `strings.Split` and `strings.TrimSpace` are parameters.
use rtp_over_quic.Base.{
  ℕ, suc, ◌≡◌, refl, sym, ◌∙◌, List, [], ◌∷◌, map, Option, none, some, String, str_eq,
  if◌then◌else◌, get_elem?, Bool-cases, inl, inr,
}
use mathlib.Core.Option.{map as option_map}

abbrev stat_keys : List String
stat_keys =
    "logTag" ∷ "queueDelay" ∷ "queueDelayMax" ∷ "queueDelayMinAvg" ∷ "sRTT" ∷ "cwnd"
    ∷ "bytesInFlightLog" ∷ "rateTransmittedConnection" ∷ "isInFastStart" ∷ "rtpQueueDelayStream0"
    ∷ "rtpQueueBytesInQueueStream0" ∷ "rtpQueueSizeOfQueueStream0" ∷ "targetBitrateStream0"
    ∷ "rateRTPStream0" ∷ "packetsRTPStream0" ∷ "rateTransmittedStream0" ∷ "rateAckedStream0"
    ∷ "rateLostStream0" ∷ "rateCEStream0" ∷ "packetsCEStream0" ∷ "hiSeqAckStream0"
    ∷ "clearedStream0" ∷ "packetsLostStream0" ∷ []

-- The loop, up to the end of the shorter list.
unfoldable pair_up : (String → String) → List String → List String → List (String × String)
pair_up trim [] fields = []
pair_up trim (k ∷ keys) [] = []
pair_up trim (k ∷ keys) (field ∷ fields) = (k, trim field) ∷ pair_up trim keys fields

unfoldable get_stats : (String → List String) → (String → String) → String → List (String × String)
unfolding pair_up
get_stats split trim stats = pair_up trim stat_keys (split stats)

-- An entry of the map.
abbrev pub stat : String → List (String × String) → Option String
stat k [] = none
stat k ((j, v) ∷ rest) = if str_eq j k then some v else stat k rest

-- The columns behind the time and the target in the log of `RunSCReAM`.
unfoldable logged_stats : List (String × String) → List (Option String)
logged_stats stats =
    stat "queueDelay" stats
    ∷ stat "sRTT" stats
    ∷ stat "cwnd" stats
    ∷ stat "bytesInFlightLog" stats
    ∷ stat "rateLostStream0" stats
    ∷ stat "rateTransmittedStream0" stats
    ∷ stat "rateAckedStream0" stats
    ∷ stat "hiSeqAckStream0" stats
    ∷ stat "isInFastStart" stats
    ∷ []

abbrev index_of : String → List String → Option ℕ
index_of k [] = none
index_of k (j ∷ keys) = if str_eq j k then some 0 else option_map suc (index_of k keys)

-- The field that stands where the key does.
abbrev field_of : (String → String) → List String → Option ℕ → Option String
field_of trim fields none = none
field_of trim fields (some i) = option_map trim (get_elem? fields i)

field_of-suc :
    (trim : String → String) (field : String) (fields : List String) (o : Option ℕ)
    → field_of trim (field ∷ fields) (option_map suc o) ≡ field_of trim fields o
field_of-suc trim field fields none = refl
field_of-suc trim field fields (some i) = refl

none-field_of : (trim : String → String) (o : Option ℕ) → none ≡ field_of trim [] o
none-field_of trim none = refl
none-field_of trim (some i) = refl

stat-pair_up :
    (trim : String → String) (k : String) (keys fields : List String)
    → stat k (pair_up trim keys fields) ≡ field_of trim fields (index_of k keys)
unfolding pair_up
stat-pair_up trim k [] fields = refl
stat-pair_up trim k (j ∷ keys) [] = none-field_of trim (index_of k (j ∷ keys))
stat-pair_up trim k (j ∷ keys) (field ∷ fields) = elim (Bool-cases (str_eq j k)) [
  | inl same ↦ rw same refl
  | inr other ↦
      rw other
        (stat-pair_up trim k keys fields ∙ sym (field_of-suc trim field fields (index_of k keys)))
]

-- Whatever the text of the statistics is, every column of the log is the field of the text that has
-- its name, without the spaces around it: the fields 1, 4, 5, 6, 17, 15, 16, 20 and 8, from 0; and
-- a column is missing exactly where the text has no such field.
logged_stats-get_stats :
    (split : String → List String) (trim : String → String) (text : String)
    → logged_stats (get_stats split trim text)
      ≡ map
          (λ i. option_map trim (get_elem? (split text) i))
          (1 ∷ 4 ∷ 5 ∷ 6 ∷ 17 ∷ 15 ∷ 16 ∷ 20 ∷ 8 ∷ [])
unfolding logged_stats get_stats
logged_stats-get_stats split trim text =
    let is = λ (k : String). stat-pair_up trim k stat_keys (split text) in
    rw
      (
        is "queueDelay",
        is "sRTT",
        is "cwnd",
        is "bytesInFlightLog",
        is "rateLostStream0",
        is "rateTransmittedStream0",
        is "rateAckedStream0",
        is "hiSeqAckStream0",
        is "isInFastStart",
      )
      refl
