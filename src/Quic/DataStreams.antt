-- ===== src/Quic/DataStreams.antt =====
-- quic/sender.go: data streams, with a flow ID of their own or without one, beside the media
-- streams.
use rtp_over_quic.Base.{
  ℕ, ◌+◌, ◌<◌, ◌^◌, ◌≡◌, ◌≢◌, refl, false, List, [], ◌∷◌, Option, none, some, Outcome, ok, err,
  ◌>>=◌, length, mem_nat, arith,
}
use rtp_over_quic.Quic.FlowIds.{new_flow_id, new_flow_id-IsFresh}
use rtp_over_quic.Quic.Varint.{VarintLib, IsVarint}

-- `OpenUniStreamSync`, then the flow ID as the first bytes on the stream, whose writing may fail.
-- The result is what is on the stream before the caller writes to it.
unfoldable pub new_data_stream_with_flow_id :
    VarintLib → Outcome (Unit {0}) → Outcome (Unit {0}) → ℕ → Outcome (List ℕ)
new_data_stream_with_flow_id v opened written id = do
  stream ← opened
  id_bytes ← v.write id
  done ← written
  ok id_bytes

unfoldable new_data_stream_without_flow_id : Outcome (Unit {0}) → Outcome (List ℕ)
new_data_stream_without_flow_id opened = do stream ← opened; ok []

-- `newFlowID`, with its error.
abbrev pub taken : Option (ℕ × List ℕ) → Outcome (ℕ × List ℕ)
taken none = err "too many flows, no unused IDs left"
taken (some r) = ok r

-- The flow IDs in use afterwards, the ID, and what is on the stream.
unfoldable pub new_data_stream_with_default_flow_id :
    VarintLib → Outcome (Unit {0}) → Outcome (Unit {0}) → List ℕ → Outcome (List ℕ × ℕ × List ℕ)
unfolding new_data_stream_with_flow_id
new_data_stream_with_default_flow_id v opened written ids = do
  (id, ids') ← taken (new_flow_id ids)
  bytes ← new_data_stream_with_flow_id v opened written id
  ok (ids', id, bytes)

-- `NewMediaStream`: the flow IDs in use afterwards, and the ID of the media stream.
unfoldable pub new_media_stream : List ℕ → Outcome (List ℕ × ℕ)
new_media_stream ids = do (id, ids') ← taken (new_flow_id ids); ok (ids', id)

fresh_differs : (i j : ℕ) (ids : List ℕ) → mem_nat j (i ∷ ids) ≡ false → j ≢ i
fresh_differs i j ids fresh same = ground arith

-- With fewer than 2 ^ 62 - 1 flows, if the stream opens and takes the flow ID: a data stream and a
-- media stream that are opened one after the other get IDs that differ from each other and from all
-- in use, both are marked as used, and the data stream begins with the encoding of its own.
pub new_media_stream-new_data_stream :
    (v : VarintLib) (law : IsVarint v) (ids : List ℕ)
    → length ids + 1 < 2 ^ 62
    → (i : ℕ) × (j : ℕ) × (enc : List ℕ) × (new_data_stream_with_default_flow_id v
          (ok tt)
          (ok tt)
          ids
        ≡ ok (i ∷ ids, i, enc))
      × (new_media_stream (i ∷ ids) ≡ ok (j ∷ i ∷ ids, j))
      × (v.write i ≡ ok enc)
      × (mem_nat i ids ≡ false)
      × (mem_nat j ids ≡ false)
      × (j ≢ i)
unfolding new_data_stream_with_default_flow_id new_media_stream
new_media_stream-new_data_stream v law ids few =
    let (i, taken_i, fresh_i, small_i, all_i) = new_flow_id-IsFresh ids (omega arith) in
    let (j, taken_j, fresh_j, small_j, all_j) = new_flow_id-IsFresh (i ∷ ids) (omega arith) in
    let (enc, written, len) = law.writes i (omega arith) in
    (
      i,
      j,
      enc,
      rw (taken_i, new_data_stream_with_default_flow_id, written) refl,
      rw (taken_j, new_media_stream) refl,
      written,
      fresh_i,
      ground arith,
      fresh_differs i j ids fresh_j,
    )
