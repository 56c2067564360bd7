-- ===== src/Router.antt =====
-- src/mycellm/router: which peer serves a request.
pub mod Registry
pub mod Chain
pub mod Failover
pub mod Health
pub mod Samples
