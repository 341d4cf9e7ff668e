-- ===== src/Pool.antt =====
-- The connection pool of pool/.
pub mod Config
pub mod Validated
pub mod Metrics
pub mod MuxConn
pub mod Selector
pub mod Scaler
pub mod Least
pub mod Decisions
pub mod State
pub mod Operations
pub mod Steps
pub mod Capacity
pub mod Shrinking
pub mod Settling
pub mod Streams
mod Scenarios
