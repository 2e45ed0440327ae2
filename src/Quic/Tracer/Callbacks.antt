-- ===== src/Quic/Tracer/Callbacks.antt =====
-- quic/qlog_tracer.go: the methods that quic-go calls. `TracerForConnection` gives every connection
-- the same struct, so that all of them update one set of round-trip times.
use rtp_over_quic.Base.{ℕ, ◌≡◌, refl, List, [], ◌∷◌, map}
use rtp_over_quic.Quic.Tracer.{RttStats, updated_metrics, trace, IsLatest, trace-IsLatest}

-- A call of a method, without the arguments that it ignores.
data Callback : Type 0 where
  -- of the tracer
  tracer_sent_packet sent_version_negotiation_packet tracer_dropped_packet : Callback
  -- of the tracer of a connection
  sent_packet received_packet restored_transport_parameters : Callback
  received_version_negotiation_packet negotiated_version received_retry : Callback
  received_long_header_packet received_short_header_packet : Callback
  started_connection closed_connection : Callback
  sent_transport_parameters received_transport_parameters : Callback
  buffered_packet dropped_packet : Callback
  updates_metrics : RttStats → Callback
  acknowledged_packet lost_packet updated_congestion_state updated_pto_count : Callback
  updated_key_from_tls updated_key dropped_encryption_level dropped_key : Callback
  set_loss_timer loss_timer_expired loss_timer_canceled : Callback
  closes debugs : Callback

-- `NewTracer`.
abbrev new_tracer : RttStats
new_tracer = record { min_rtt = 0; smoothed_rtt = 0; rtt_var = 0; latest_rtt = 0 }

-- Every method but `UpdatedMetrics` has an empty body.
unfoldable call : Callback → RttStats → RttStats
unfolding updated_metrics
call (updates_metrics stats) q = updated_metrics stats q
call _ q = q

-- The calls of all connections, by a number for each, in the order in which they take the lock.
unfoldable call_all : List (ℕ × Callback) → RttStats → RttStats
unfolding call
call_all [] q = q
call_all ((connection, c) ∷ more) q = call_all more (call c q)

-- `Metrics`, which copies the struct under the lock.
unfoldable metrics : RttStats → RttStats
metrics q = record {
  min_rtt = q.min_rtt;
  smoothed_rtt = q.smoothed_rtt;
  rtt_var = q.rtt_var;
  latest_rtt = q.latest_rtt;
}

abbrev reports_in : List (ℕ × Callback) → List RttStats
reports_in [] = []
reports_in ((connection, updates_metrics stats) ∷ more) = stats ∷ reports_in more
reports_in (_ ∷ more) = reports_in more

call_all-trace :
    (calls : List (ℕ × Callback)) (q : RttStats) → call_all calls q ≡ trace (reports_in calls) q
unfolding call_all trace call
call_all-trace [] q = refl
call_all-trace ((connection, updates_metrics stats) ∷ more) q =
    call_all-trace more (updated_metrics stats q)
call_all-trace ((connection, _) ∷ more) q = call_all-trace more q

-- Whatever quic-go calls, and for however many connections: the round-trip times that `Metrics`
-- returns are each the last one other than 0 that a connection reported, and 0 before the first.
metrics-IsLatest :
    (calls : List (ℕ × Callback))
    → let q = metrics (call_all calls new_tracer) in
      let reports = reports_in calls in
      IsLatest 0 (map (λ s. s.min_rtt) reports) q.min_rtt
      × IsLatest 0 (map (λ s. s.smoothed_rtt) reports) q.smoothed_rtt
      × IsLatest 0 (map (λ s. s.rtt_var) reports) q.rtt_var
      × IsLatest 0 (map (λ s. s.latest_rtt) reports) q.latest_rtt
unfolding metrics
metrics-IsLatest calls =
    rw (call_all-trace calls new_tracer) (trace-IsLatest (reports_in calls) new_tracer)
