-- ===== src/Execution.antt =====
-- src/mycellm/execution: the adaptive inference fabric.
pub mod Models
pub mod Policy
pub mod Planner
pub mod Coordinator
pub mod Queue
pub mod Scheduler
