-- ===== src/Bridge/Output.antt =====
-- The output gate of `_run_realtime_socket` of bridge/service.py, and what the device makes of it.
pub mod Gate
pub mod Preroll
pub mod Talk
pub mod Device
pub mod Tail
