-- ===== src/Order.antt =====
-- Inbound orders: models/cartona_order_processor.py.
pub mod Data
pub mod Issue
pub mod Resolve
pub mod Item
pub mod Retailer
pub mod Validate
pub mod Transition
pub mod Lines
pub mod World
pub mod Create
pub mod Update
pub mod Process
