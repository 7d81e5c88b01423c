-- ===== src/Bridge/ToolBroker.antt =====
-- The broker of Home Assistant tools, bridge/tool_broker.py.
pub mod Dict
pub mod Language
pub mod Registration
pub mod Registered
pub mod Broker
pub mod World
pub mod Entries
pub mod Invariant
pub mod Calls
pub mod Runs
pub mod Outcomes
pub mod Delivery
