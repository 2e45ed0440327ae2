-- ===== src/Rtp.antt =====
-- The package rtp.
pub mod Unwrapper
pub mod Estimator
pub mod Startup
pub mod Registry
pub mod Format
