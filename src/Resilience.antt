-- ===== src/Resilience.antt =====
-- src/mycellm/resilience.py and memory_watch.py: what a node does about its own distress.
pub mod Watchdog
pub mod MemoryWatch
