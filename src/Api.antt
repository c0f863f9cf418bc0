-- ===== src/Api.antt =====
-- models/cartona_api.py: the requests to Cartona, the pull of orders and the product batches.
pub mod Request
pub mod Ack
pub mod Tally
pub mod Pull
pub mod Payload
pub mod Batch
pub mod Run
pub mod Retry
