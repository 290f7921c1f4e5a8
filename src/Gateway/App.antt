-- ===== src/Gateway/App.antt =====
-- gateway/app.py: the HTTP interface of the gateway, from the checks on a request to its response.
pub mod Json
pub mod RequestId
pub mod Validation
pub mod Accepted
pub mod Complete
pub mod Endpoints
pub mod Middleware
pub mod Ready
mod Tests
