-- ===== src/HomeAssistant.antt =====
-- The Home Assistant side of the tool broker, custom_components/codex_voice/realtime_tools.py.
pub mod ToolClient
pub mod Connection
pub mod Ledger
pub mod Calls
pub mod Once
pub mod Answered
