-- ===== src/Market.antt =====
-- market: the service that feeds each symbol's order book from the topic `incoming_orders`.
pub mod Messages
pub mod Service
pub mod Snapshot
pub mod Consuming
pub mod RoundTrip
pub mod Replaying
mod Tests
