-- ===== src/Scripts.antt =====
-- scripts/: the load generator, its reports, and the tools around them.
pub mod Summary
pub mod Download
pub mod Benchmark
pub mod Resources
pub mod Corpus
pub mod Failure
mod Tests
