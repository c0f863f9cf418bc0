-- ===== src/Sale.antt =====
-- models/sale_order.py: what changes of an order and of its lines are sent to Cartona, and how the
-- answer is kept on the order.
pub mod Triggers
pub mod Status
pub mod Details
