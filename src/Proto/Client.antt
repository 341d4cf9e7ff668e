-- ===== src/Proto/Client.antt =====
-- proto/client.go: the dialling end of a connection, which the listener runs.
--
-- `Register`, `Bind` and `Close` hold the mutex from their first line to their return, so a call is
-- one step. The goroutine that reads commands is `command_rounds`.
pub mod Types
pub mod Session
pub mod Events
pub mod Frame
pub mod Ending
