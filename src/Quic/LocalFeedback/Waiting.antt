-- ===== src/Quic/LocalFeedback/Waiting.antt =====
-- quic/local_rfc8888.go and quic/sender.go: the goroutines around the channels `ackedPkts`, with
-- room for 1000 packets, and `rtcpChan`, with none. They are the goroutine of quic-go that calls
-- back for an acknowledged datagram, the generator's `run`, the reading loop of the sender, and
-- `ReadRTCP`, whose interceptors return in this model.
pub mod Fate
use rtp_over_quic.Base.{ℕ, ◌+◌, ◌-◌, ◌<◌, ◌≡◌, Bool, true, false, if◌then◌else◌}

-- quic-go: before the next callback, or at `f.ackedPkts <- pkt`.
pub data AckerPlace : Type 0 where
  free acking : AckerPlace

-- `run`: at its `select`, at the `rtcpChan <- r` of the callback `reportCB`, or returned.
pub data GeneratorPlace : Type 0 where
  selecting reporting returned : GeneratorPlace

-- `readFromNetwork`: before `ReceiveMessage`, or at `rtcpChan <-`.
pub data NetworkPlace : Type 0 where
  receiving sending : NetworkPlace

-- `ReadRTCP`: at its `select`, in the interceptors, or returned.
pub data ReaderPlace : Type 0 where
  selecting reading returned : ReaderPlace

-- `pending`: the packets in `ackedPkts`.
pub record System : Type 0 where
  pub pending : ℕ
  pub acker : AckerPlace
  pub generator : GeneratorPlace
  pub network : NetworkPlace
  pub reader : ReaderPlace
  pub cancelled : Bool

-- `make(chan ackedPkt, 1000)`
abbrev pub capacity : ℕ
capacity = 1000

-- After `Connect`.
abbrev pub initial : System
initial = record {
  pending = 0;
  acker = free;
  generator = GeneratorPlace.selecting;
  network = receiving;
  reader = ReaderPlace.selecting;
  cancelled = false;
}

-- Behind a packet: the congestion control has a report, or none.
abbrev behind_packet : Bool → GeneratorPlace
behind_packet report = if report then reporting else GeneratorPlace.selecting

pub data Step (s : System) : System → Type 0 where
  calls_back : s.acker ≡ free → Step s (record s { acker = acking })
  enters :
      s.acker ≡ acking
      → s.pending < capacity
      → Step s (record s { pending = s.pending + 1; acker = free })
  takes :
      (report : Bool)
      → s.generator ≡ GeneratorPlace.selecting
      → 0 < s.pending
      → Step s (record s { pending = s.pending - 1; generator = behind_packet report })
  reports :
      s.generator ≡ reporting
      → s.reader ≡ ReaderPlace.selecting
      → Step s (record s { generator = GeneratorPlace.selecting; reader = reading })
  generator_returns :
      s.generator ≡ GeneratorPlace.selecting
      → s.cancelled ≡ true
      → Step s (record s { generator = GeneratorPlace.returned })
  receives : s.network ≡ receiving → Step s (record s { network = sending })
  sends :
      s.network ≡ sending
      → s.reader ≡ ReaderPlace.selecting
      → Step s (record s { network = receiving; reader = reading })
  reads : s.reader ≡ reading → Step s (record s { reader = ReaderPlace.selecting })
  reader_returns :
      s.reader ≡ ReaderPlace.selecting
      → s.cancelled ≡ true
      → Step s (record s { reader = ReaderPlace.returned })
  cancels : Step s (record s { cancelled = true })
