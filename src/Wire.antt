-- ===== src/Wire.antt =====
-- The calls between the two processes: the handlers of worker/server.py under the client and the
-- poller of the gateway.
pub mod Predict
pub mod Failure
pub mod Drain
pub mod Served
mod Tests
