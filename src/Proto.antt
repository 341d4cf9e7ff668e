-- ===== src/Proto.antt =====
-- proto/: the protocol of the control connection, on both ends; version 2 is in Multiplex.
pub mod Static
pub mod Failure
pub mod Conn
pub mod Uuid
pub mod Commands
pub mod Server
pub mod Client
pub mod Multiplex
pub mod Handshake
pub mod Delivery
pub mod Samples
pub mod Scenarios
