-- ===== src/Device.antt =====
-- The in-process realtime client of the ThirdReality device
-- (device/thirdreality/realtime_client): its WebSocket transport and its session.
pub mod WebSocket
pub mod Config
pub mod Session
