-- ===== src/Training.antt =====
-- src/mycellm/training: rounds of federated averaging.
pub mod Aggregate
pub mod Round
pub mod Session
