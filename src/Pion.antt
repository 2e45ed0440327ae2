-- ===== src/Pion.antt =====
-- What the code uses of packages that are not in the repository: pion's RTP headers and
-- attributes, and Go's float64. They are parameters of the model, with no law of their own; a
-- theorem that relies on documented behaviour names it as a hypothesis.
use rtp_over_quic.Base.{ℕ, Bool, List, Option, none}
use rtp_over_quic.Base.{Outcome}

-- github.com/pion/rtp: a header, and `Packet.MarshalSize` for a header with its payload.
pub record RtpLib : Type 1 where
  pub Header : Type 0
  pub marshal : Header → Outcome (List ℕ)
  pub marshal_size : Header → ℕ
  pub ssrc : Header → ℕ
  pub sequence_number : Header → ℕ
  pub marker : Header → Bool
  pub packet_size : Header → List ℕ → ℕ

-- float64, with the operations that the code makes.
pub record FloatLib : Type 1 where
  pub Float : Type 0
  pub of_nat : ℕ → Float
  pub sub : Float → Float → Float
  pub add : Float → Float → Float
  pub mul : Float → Float → Float
  pub div : Float → Float → Float
  pub is_lt : Float → Float → Bool
  pub is_le : Float → Float → Bool
  pub is_eq : Float → Float → Bool
  pub negate : Float → Float
  pub to_uint32 : Float → ℕ
  pub to_uint64 : Float → ℕ

-- A value in a `map[interface{}]interface{}`: its dynamic type and its content. A time is a number
-- of nanoseconds.
pub data Value : Type 0 where
  of_time : ℕ → Value
  of_reliability : Bool → Value
  of_flow_id : ℕ → Value
  of_transport : ℕ → Value
  of_other : Value

-- interceptor.Attributes, by the keys that the code reads and writes.
pub record Attributes : Type 0 where
  pub reliability : Option Value
  pub timestamp : Option Value
  pub flow_id : Option Value
  pub transport : Option Value

abbrev pub no_attributes : Attributes
no_attributes = record { reliability = none; timestamp = none; flow_id = none; transport = none }
