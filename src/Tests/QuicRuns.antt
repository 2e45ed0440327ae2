-- ===== src/Tests/QuicRuns.antt =====
-- Datagrams, streams and flow IDs at concrete packets.
use rtp_over_quic.Base.{
  ◌≢◌, ℕ, ◌≡◌, refl, true, false, List, [], ◌∷◌, Option, some, arith, mem_nat, ok,
}
use rtp_over_quic.Pion.{no_attributes, of_reliability}
use rtp_over_quic.Pion.{Attributes}
use rtp_over_quic.Quic.Mode.{dgram, stream}
use rtp_over_quic.Quic.Sender.{
  default_config, choose, Sending, on_stream, media_write, media_stream,
}
use rtp_over_quic.Quic.Sender.Choice.{IsChosen, media_write-IsChosen}
use rtp_over_quic.Quic.Receiver.{Pkt}
use rtp_over_quic.Quic.Trip.{arrives, media_stream-arrives}
use rtp_over_quic.Quic.DataStreams.{
  new_data_stream_with_default_flow_id, new_media_stream, new_media_stream-new_data_stream,
}
use rtp_over_quic.Quic.Varint.{VarintLib}
use rtp_over_quic.Tests.Packages.{small_rtp, one_symbol, one_symbol-IsVarint}

-- Attributes that ask for reliable delivery.
abbrev reliable : Option Attributes
reliable = some (record no_attributes { reliability = some (of_reliability true) })

abbrev on_its_stream : Sending
on_its_stream = on_stream (5 ∷ 1 ∷ 2 ∷ 9 ∷ [])

on_its_stream_lem :
    media_stream small_rtp default_config one_symbol 5 0 258 (9 ∷ []) reliable ≡ ok on_its_stream
unfolding media_stream default_config choose
on_its_stream_lem = refl

media_stream-arrives_example :
    arrives one_symbol on_its_stream
    ≡ record { flow_id = 5; transport = stream; buffer = 1 ∷ 2 ∷ 9 ∷ [] } ∷ []
media_stream-arrives_example =
    media_stream-arrives one_symbol one_symbol-IsVarint small_rtp default_config 5 0 258 (9 ∷ [])
      reliable (1 ∷ 2 ∷ []) on_its_stream (omega arith) refl on_its_stream_lem

on_its_stream_written :
    media_write small_rtp default_config (5 ∷ []) 0 258 (9 ∷ []) reliable ≡ ok on_its_stream
unfolding media_write default_config choose
on_its_stream_written = refl

media_write-IsChosen_example : IsChosen default_config (5 ∷ 1 ∷ 2 ∷ 9 ∷ []) reliable on_its_stream
media_write-IsChosen_example =
    media_write-IsChosen small_rtp default_config (5 ∷ []) 0 258 (9 ∷ []) reliable (1 ∷ 2 ∷ [])
      on_its_stream refl on_its_stream_written

abbrev received_packet : Pkt
received_packet = record { flow_id = 5; transport = dgram; buffer = [] }

-- A varint library that reads the number 5 from its encoding in two bytes.
abbrev two_byte_five : VarintLib
two_byte_five = record {
  write = λ id. ok (id ∷ []);
  read = λ bytes. ok (5, (9 ∷ []));
  len = λ id. 1;
}

new_media_stream-new_data_stream_example :
    (i : ℕ) × (j : ℕ) × (enc : List ℕ) × (new_data_stream_with_default_flow_id one_symbol
        (ok tt)
        (ok tt)
        (0 ∷ [])
      ≡ ok (i ∷ 0 ∷ [], i, enc))
    × (new_media_stream (i ∷ 0 ∷ []) ≡ ok (j ∷ i ∷ 0 ∷ [], j))
    × (one_symbol.write i ≡ ok enc)
    × (mem_nat i (0 ∷ []) ≡ false)
    × (mem_nat j (0 ∷ []) ≡ false)
    × (j ≢ i)
new_media_stream-new_data_stream_example =
    new_media_stream-new_data_stream one_symbol one_symbol-IsVarint (0 ∷ []) (omega arith)
