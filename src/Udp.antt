-- ===== src/Udp.antt =====
-- The package udp.
pub mod Server
pub mod Buffer
pub mod Sockets
pub mod Feedback
pub mod Transport
