-- ===== src/Device/WebSocket.antt =====
-- device/thirdreality/realtime_client/websocket.py: the strict RFC 6455 client. `Frame` has the
-- framing, `Connection` the object and its methods; the other modules prove about these two.
pub mod Utf8
pub mod Frame
pub mod Xor
pub mod ServerFrames
pub mod Canonical
pub mod ClientFrames
pub mod Bounds
pub mod Connection
pub mod Contracts
pub mod Receive
pub mod Reassembly
