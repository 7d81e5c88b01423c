-- ===== src/Bridge/WebRtc.antt =====
-- The WebRTC peer of bridge/webrtc.py: its paced input track and its bounded receive queues.
pub mod Track
pub mod Validity
pub mod Playout
pub mod Transport
pub mod Fifo
