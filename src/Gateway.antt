-- ===== src/Gateway.antt =====
-- components/gateway: the route table, the replies that requests wait for, and the requests' admission.
pub mod Routes
pub mod Pending
pub mod Requests
mod Tests
