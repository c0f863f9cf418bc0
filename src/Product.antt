-- ===== src/Product.antt =====
-- Outbound product sync: the sync rows, the triggers, and the batches.
pub mod SyncTable
pub mod Trigger
pub mod Sync
