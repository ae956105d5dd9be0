-- ===== src/V1.antt =====
-- The first generation, v1. v2/control/port_manager.go is v1/control/port_manager.go but for session ids.
pub mod Leases
pub mod Relay
pub mod Reaper
pub mod Hub
mod Tests
