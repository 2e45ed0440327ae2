-- ===== src/Scream.antt =====
-- The package scream.
pub mod Queue
pub mod Ssrcs
pub mod Ntp
pub mod Statistics
pub mod Factory
pub mod Tx
pub mod Pacing
pub mod Feedback
pub mod Sender
pub mod Locking
pub mod Receiver
