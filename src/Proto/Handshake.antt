-- ===== src/Proto/Handshake.antt =====
-- Both ends of a handshake together: `Register` and `Bind` of proto/client.go against `Process` of
-- proto/server.go.
pub mod ServerSteps
pub mod Exchange
pub mod Rounds
pub mod Secured
pub mod Credentials
