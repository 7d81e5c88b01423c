-- ===== src/Bridge/Wire.antt =====
-- The device-facing wire contract, bridge/realtime_wire.py.
pub mod Start
pub mod Events
pub mod Negotiate
pub mod Handshake
pub mod Controls
pub mod Roles
