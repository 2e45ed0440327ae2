-- ===== src/Tcp.antt =====
-- The package tcp: RTP and RTCP packets on a TCP connection, each behind its length in two bytes
-- (RFC 4571).
pub mod Sockets
pub mod Framing
pub mod Transport
pub mod Feedback
