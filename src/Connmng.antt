-- ===== src/Connmng.antt =====
-- connmng/manager.go: the dialer's registered control connections.
pub mod Manager
pub mod Lookup
pub mod Getting
pub mod Runs
pub mod RoundRobin
pub mod Scenarios
