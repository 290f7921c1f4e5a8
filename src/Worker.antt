-- ===== src/Worker.antt =====
-- The worker process.
pub mod Samples
pub mod Config
pub mod Batcher
pub mod Model
pub mod Server
mod Tests
