-- ===== src/Worker/Batcher.antt =====
-- worker/batcher.py: the bounded queue and the task that forms and executes batches. The task is a
-- machine whose step is one round of a loop, or the code up to the next await; other tasks may run
-- between two steps, which allows all that the event loop does. Loop time is in microseconds, and the
-- n-th reading of the clock is `clock n`.
pub mod Defs
pub mod Loop
pub mod Run
pub mod Slices
pub mod Rounds
pub mod Limits
pub mod Answers
pub mod Futures
pub mod Progress
pub mod Measure
pub mod Fifo
pub mod Ticks
pub mod Liveness
pub mod Shutdown
pub mod Promises
pub mod Delivery
pub mod Contract
pub mod Matches
pub mod Results
pub mod Refines
