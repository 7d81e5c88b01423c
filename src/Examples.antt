-- ===== src/Examples.antt =====
-- Tests, and the theorems at concrete inputs.
mod Transport
mod Device
mod Loop
mod Startup
mod Bridge
mod AppServer
mod Media
mod Output
mod Tools
