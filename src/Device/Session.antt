-- ===== src/Device/Session.antt =====
-- device/thirdreality/realtime_client/session.py: the bounded session. `Audio`, `Player`, `Protocol`,
-- `State`, `Messages` and `Loop` model it; the other modules prove about these.
pub mod Audio
pub mod Queue
pub mod Player
pub mod Playback
pub mod State
pub mod Capture
pub mod Protocol
pub mod Messages
pub mod Dispatch
pub mod Epochs
pub mod Loop
pub mod Ends
pub mod Network
pub mod Calls
pub mod Interleaved
pub mod Ending
pub mod Threads
pub mod Silence
pub mod Startup
pub mod Acknowledged
