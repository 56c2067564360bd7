-- ===== src/Accounting.antt =====
-- src/mycellm/accounting: credits, receipts and their settlement by a tracker.
pub mod Ledger
pub mod Receipts
pub mod Tracker
