-- ===== src/Tunnel.antt =====
-- A call of `DialContext` from end to end: listener.go and dialer.go over one connection or stream.
pub mod Accepting
pub mod Streams
pub mod Connections
pub mod Asking
pub mod Dialling
mod Scenarios
