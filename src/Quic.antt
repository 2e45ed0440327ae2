-- ===== src/Quic.antt =====
-- The package quic: RTP and RTCP packets in QUIC datagrams and streams, each behind its flow ID.
pub mod Varint
pub mod Tls
pub mod Mode
pub mod FlowIds
pub mod Sender
pub mod Receiver
pub mod Connection
pub mod Trip
pub mod Tracer
pub mod LocalFeedback
pub mod DataStreams
