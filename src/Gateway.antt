-- ===== src/Gateway.antt =====
-- The gateway process.
pub mod Config
pub mod Events
pub mod Registry
pub mod State
pub mod Scheduler
pub mod Client
pub mod System
pub mod App
pub mod Http
pub mod Samples
mod Tests
