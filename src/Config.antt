-- ===== src/Config.antt =====
-- models/cartona_config.py: the configuration of a warehouse.
pub mod Data
pub mod Lookup
pub mod Rules
pub mod Jobs
pub mod Stats
pub mod Connection
pub mod Dashboard
pub mod Domain
pub mod Windows
pub mod Overview
pub mod Manual
