-- ===== src/Api.antt =====
-- src/mycellm/api: the HTTP surface of a node.
pub mod Jobs
