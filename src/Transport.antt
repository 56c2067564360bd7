-- ===== src/Transport.antt =====
-- src/mycellm/transport: connections to other nodes.
pub mod Peers
