-- ===== src/Migrate.antt =====
-- The migrations of the database between versions of the addon: migrations/.
pub mod Tables
pub mod Channel
pub mod Cleanup
pub mod Jobs
pub mod Pivot
pub mod Names
pub mod Renames
pub mod Views
pub mod Indexes
pub mod Warehouses
