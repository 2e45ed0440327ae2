-- ===== src/Scream/Queue.antt =====
-- scream/rtp_queue.go: the packets that wait for the congestion control, with their total size.
-- `front` and `back` of the container/list are the two ends of a list.
pub mod Contents
use rtp_over_quic.Base.{
  ℕ, ◌+◌, ◌-◌, ◌%◌, ◌^◌, List, [], ◌∷◌, ◌++◌, Option, none, some, length, last?, if◌then◌else◌,
}
use rtp_over_quic.Base.Int.{ℤ, signed64}
use rtp_over_quic.Pion.{RtpLib, FloatLib, Attributes}

-- receiver_interceptor.go's `packet`; `attributes` may be nil.
pub record Packet (r : RtpLib) : Type 0 where
  pub header : r.Header
  pub payload : List ℕ
  pub timestamp : ℕ
  pub attributes : Option Attributes

pub record RtpQueueItem (r : RtpLib) (f : FloatLib) : Type 0 where
  pub packet : Packet r
  pub ts : f.Float

-- `bytes_in_queue` is the 64-bit pattern of Go's int.
pub record Queue (r : RtpLib) (f : FloatLib) : Type 0 where
  pub bytes_in_queue : ℕ
  pub queue : List (RtpQueueItem r f)

abbrev pub size_of : {r : RtpLib} → Packet r → ℕ
size_of {r} p = r.packet_size p.header p.payload

module _ {r : RtpLib} {f : FloatLib} where
  unfoldable pub new_queue : Queue r f
  new_queue = record { bytes_in_queue = 0; queue = [] }

  unfoldable size_of_next_rtp : Queue r f → ℕ
  size_of_next_rtp q = elim q.queue [ [] ↦ 0 | item ∷ rest ↦ size_of item.packet ]

  unfoldable seq_nr_of_next_rtp : Queue r f → ℕ
  seq_nr_of_next_rtp q = elim q.queue [
    | [] ↦ 0
    | item ∷ rest ↦ r.sequence_number item.packet.header
  ]

  unfoldable seq_nr_of_last_rtp : Queue r f → ℕ
  seq_nr_of_last_rtp q = elim (last? q.queue) [
    | none ↦ 0
    | some item ↦ r.sequence_number item.packet.header
  ]

  unfoldable pub bytes_in_queue : Queue r f → ℤ
  bytes_in_queue q = signed64 q.bytes_in_queue

  unfoldable pub size_of_queue : Queue r f → ℕ
  size_of_queue q = length q.queue

  unfoldable get_delay : Queue r f → f.Float → f.Float
  get_delay q ts = elim q.queue [
    | [] ↦ f.of_nat 0
    | item ∷ rest ↦ if f.is_lt (f.sub ts item.ts) (f.of_nat 0) then f.of_nat 0 else f.sub ts item.ts
  ]

  unfoldable get_size_of_last_frame : Queue r f → ℕ
  get_size_of_last_frame q = elim (last? q.queue) [ none ↦ 0 | some item ↦ size_of item.packet ]

  -- The new queue, and the number of packets that were dropped.
  unfoldable pub clear : Queue r f → Queue r f × ℕ
  clear q = (record q { bytes_in_queue = 0; queue = [] }, length q.queue)

  unfoldable pub enqueue : Packet r → f.Float → Queue r f → Queue r f
  enqueue p ts q = record q {
    bytes_in_queue = (q.bytes_in_queue + size_of p) % 2 ^ 64;
    queue = q.queue ++ (record { packet = p; ts = ts } ∷ []);
  }

  -- `none` is nil.
  unfoldable pub dequeue : Queue r f → Queue r f × Option (Packet r)
  dequeue q = elim q.queue [
    | [] ↦ (q, none)
    | item ∷ rest ↦ (
      record q {
        bytes_in_queue = (q.bytes_in_queue + 2 ^ 64 - size_of item.packet % 2 ^ 64) % 2 ^ 64;
        queue = rest;
      },
      some item.packet,
    )
  ]
