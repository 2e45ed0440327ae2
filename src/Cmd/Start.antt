-- ===== src/Cmd/Start.antt =====
-- cmd/send.go, `start` and `startQUICSender`, and cmd/receive.go, `start` and `addStream`: the
-- order in which the two commands build their parts, and what ends them. The parts are arguments.
use Prim.Native.String.{◌++◌ as str_append}
use rtp_over_quic.Base.{
  ℕ, ◌≡◌, refl, Bool, true, false, String, [], Option, none, some, Outcome, ok, err, panic, ◌>>=◌,
  if◌then◌else◌, arith,
}
use rtp_over_quic.Quic.Varint.{VarintLib, IsVarint}
use rtp_over_quic.Quic.FlowIds.{new_flow_id, first_unused}
use rtp_over_quic.Quic.DataStreams.{
  new_data_stream_with_default_flow_id, new_data_stream_with_flow_id, new_media_stream,
}
use rtp_over_quic.Cmd.Transport.{Kind, kind_of}

-- `transportFactory`, and the `switch` of the receiver's `start`.
unfoldable transport_factory : String → Outcome Kind
unfolding kind_of
transport_factory transport = elim (kind_of transport) [
  | none ↦ err (str_append "unknown transport protocol: " transport)
  | some kind ↦ ok kind
]

-- `senderController.start`: the registry, the factory of the transport, the writer, and the media.
unfoldable start_sender :
    {Registry Writer : Type 0}
    → Outcome Registry
    → (Kind → Registry → Outcome Writer)
    → (Writer → Outcome (Unit {0}))
    → String
    → Outcome (Unit {0})
unfolding transport_factory
start_sender set_up connect start_media transport = do
  registry ← set_up
  kind ← transport_factory transport
  writer ← connect kind registry
  start_media writer

-- The receiver's `start`, for the server of each transport.
unfoldable start_receiver : (Kind → Outcome (Unit {0})) → String → Outcome (Unit {0})
unfolding transport_factory
start_receiver serve transport = do kind ← transport_factory transport; serve kind

-- `addStream`: an error of the media sink, of the registry or of its interceptor panics.
abbrev or_panic : {A : Type 0} → Outcome A → Outcome A
or_panic (ok a) = ok a
or_panic (err e) = panic
or_panic panic = panic

unfoldable pub add_stream :
    {Sink Registry Interceptor : Type 0}
    → Outcome Sink
    → Outcome Registry
    → (Registry → Outcome Interceptor)
    → Outcome (Sink × Interceptor)
add_stream new_sink new build = do
  sink ← or_panic new_sink
  registry ← or_panic new
  interceptor ← or_panic (build registry)
  ok (sink, interceptor)

-- `startQUICSender`, behind `NewSender` and `Connect`: with the flag --stream a data stream, then
-- the media stream. The flow IDs of the two; `opened` and `written` are the answers of quic-go for
-- the data stream, and the goroutine that writes random bytes to it is left out.
unfoldable start_quic_sender :
    VarintLib
    → Outcome (Unit {0})
    → Outcome (Unit {0})
    → Outcome (Unit {0})
    → Bool
    → Outcome (Option ℕ × ℕ)
unfolding new_data_stream_with_default_flow_id new_media_stream
start_quic_sender v connected opened written send_stream = do
  done ← connected
  (ids, data_id) ←
      (if send_stream
        then (do
          (ids, id, bytes) ← new_data_stream_with_default_flow_id v opened written []
          ok (ids, some id))
        else ok ([], none))
  (ids', media_id) ← new_media_stream ids
  ok (data_id, media_id)

-- Where the connection is made and the data stream opens: the media stream has the flow ID 0, or
-- with --stream 1, and then the data stream has 0.
start_quic_sender-flow_ids :
    (v : VarintLib) (law : IsVarint v) (send_stream : Bool)
    → start_quic_sender v (ok tt) (ok tt) (ok tt) send_stream
      ≡ ok (if send_stream then (some 0, 1) else (none, 0))
unfolding start_quic_sender new_flow_id first_unused new_data_stream_with_default_flow_id
    new_data_stream_with_flow_id new_media_stream
start_quic_sender-flow_ids v law true =
    let (enc, written, len) = law.writes 0 (omega arith) in rw written refl
start_quic_sender-flow_ids v law false = refl
