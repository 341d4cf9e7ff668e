-- ===== src/Proto/Server.antt =====
-- proto/server.go: the accepting end of a connection, which the dialer runs.
--
-- Each exported method holds the mutex from its first line to its return, so a call is one step.
pub mod Types
pub mod Init
pub mod Session
pub mod Send
pub mod Frame
pub mod Login
pub mod Granting
pub mod Authentication
pub mod Outcomes
pub mod ShortReads
pub mod Sending
pub mod Openness
pub mod Events
