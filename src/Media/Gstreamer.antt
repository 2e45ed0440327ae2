-- ===== src/Media/Gstreamer.antt =====
-- media/gstreamer.go: `GstreamerSource` and `GstreamerSink` around their pipelines. gst-go, which
-- makes and closes a pipeline, is a parameter.
use rtp_over_quic.Base.{
  ℕ, ◌≡◌, Bool, true, false, List, String, Outcome, ok, panic, ◌>>=◌, if◌then◌else◌, arith,
}
use rtp_over_quic.Media.Config.{Config, ConfigOption, new_config}
use rtp_over_quic.Media.Pipeline.{Element, source_elements, sink_elements}

-- `Elements.Build` with `NewPipeline`; `Pipeline.Close`; and the `Write` of a pipeline.
pub record GstLib : Type 1 where
  pub Pipeline : Type 0
  pub new_pipeline : List Element → Outcome Pipeline
  pub close : Pipeline → Pipeline × Outcome (Unit {0})
  pub write : List ℕ → Pipeline → Pipeline × Outcome ℕ

module _ (g : GstLib) where
  -- `closed`: the channel `close` is closed.
  pub record GstreamerSource : Type 0 where
    pub config : Config
    pub src : String
    pub pipeline : g.Pipeline
    pub use_gst_packetizer : Bool
    pub closed : Bool

  unfoldable new_gstreamer_source : String → Bool → List ConfigOption → Outcome GstreamerSource
  unfolding source_elements
  new_gstreamer_source src use_gst_packetizer options = do
    builder ← source_elements src use_gst_packetizer options
    pipeline ← g.new_pipeline builder
    ok (record {
      config = new_config options;
      src = src;
      pipeline = pipeline;
      use_gst_packetizer = use_gst_packetizer;
      closed = false;
    })

  -- `Stop`: closing a closed channel panics.
  unfoldable stop : GstreamerSource → GstreamerSource × Outcome (Unit {0})
  stop s =
      let (pipeline, result) = g.close s.pipeline in
      if s.closed then (s, panic) else (record s { closed = true; pipeline = pipeline }, result)

  record GstreamerSink : Type 0 where
    pub config : Config
    pub pipeline : g.Pipeline

  unfoldable new_gstreamer_sink : String → List ConfigOption → Outcome GstreamerSink
  unfolding sink_elements
  new_gstreamer_sink dst options = do
    builder ← sink_elements dst options
    pipeline ← g.new_pipeline builder
    ok (record { config = new_config options; pipeline = pipeline })

  -- The embedded writer is the pipeline.
  unfoldable sink_write : List ℕ → GstreamerSink → GstreamerSink × Outcome ℕ
  sink_write b s =
      let (pipeline, written) = g.write b s.pipeline in (record s { pipeline = pipeline }, written)

  unfoldable stop_sink : GstreamerSink → GstreamerSink × Outcome (Unit {0})
  stop_sink s =
      let (pipeline, result) = g.close s.pipeline in (record s { pipeline = pipeline }, result)

  -- The second `Stop` of a source panics, whatever the first one returned.
  stop-stop : (s : GstreamerSource) → (stop (stop s).0).1 ≡ panic
  unfolding stop
  stop-stop s = ground arith
