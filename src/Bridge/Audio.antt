-- ===== src/Bridge/Audio.antt =====
-- The PCM helpers of bridge/audio.py.
pub mod Resampler
pub mod Positions
pub mod Drain
pub mod Ends
pub mod Chunks
pub mod Streams
