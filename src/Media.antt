-- ===== src/Media.antt =====
-- The package media.
pub mod Config
pub mod Bitrate
pub mod KeyFrame
pub mod Play
pub mod Pipeline
pub mod Gstreamer
pub mod Syncodec
