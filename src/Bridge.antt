-- ===== src/Bridge.antt =====
-- The add-on side of a realtime session, bridge/.
pub mod Wire
pub mod ToolBroker
pub mod AppServer
pub mod Audio
pub mod WebRtc
pub mod Output
