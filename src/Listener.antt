-- ===== src/Listener.antt =====
-- listener.go: the end that accepts connections by asking the dialer's end for them.
pub mod Streams
pub mod Network
pub mod State
pub mod Options
pub mod Opening
pub mod Closing
pub mod Accept
pub mod Events
pub mod Leaks
pub mod Ending
mod Scenarios
