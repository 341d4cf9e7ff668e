-- ===== src/Proto/Multiplex.antt =====
-- Version 2 of the protocol: proto/client_v2.go and proto/server_v2.go. After authentication the
-- connection becomes a yamux session, and registration goes over its first stream.
pub mod Yamux
pub mod ClientEnd
pub mod ServerEnd
pub mod Versions
pub mod Admission
pub mod Wires
pub mod Registration
pub mod NoFallback
pub mod Frames
pub mod Outcomes
mod Scenarios
