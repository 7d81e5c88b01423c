-- ===== src/Bridge/AppServer.antt =====
-- The JSON-RPC client of the app-server process, bridge/app_server.py.
pub mod Table
pub mod Client
pub mod Responses
pub mod World
pub mod Answers
pub mod Locks
pub mod Once
pub mod Queues
pub mod Limits
pub mod Late
pub mod Calls
pub mod Bounds
pub mod Layers
