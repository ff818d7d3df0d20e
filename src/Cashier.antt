-- ===== src/Cashier.antt =====
-- cashier: the accounts, the funds in escrow, and the idempotency keys.
pub mod Types
pub mod Database
pub mod Postgres
pub mod Requests
pub mod Once
pub mod Funds
pub mod Deposits
pub mod Service
pub mod Serving
pub mod Fake
pub mod Agreement
pub mod Agreeing
mod Tests
