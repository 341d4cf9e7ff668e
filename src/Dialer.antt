-- ===== src/Dialer.antt =====
-- dialer.go: the end that hands connections to callers, with the requests that they wait for.
pub mod Requests
pub mod Delivery
pub mod Runs
pub mod Streams
pub mod State
pub mod Bound
pub mod Admission
pub mod Managed
pub mod Life
pub mod Reached
pub mod Stale
pub mod Lifecycle
pub mod Ending
pub mod Rounds
pub mod Emptying
pub mod Shrinking
pub mod Serving
pub mod Served
pub mod Stopping
mod Scenarios
