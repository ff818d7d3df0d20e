-- ===== src/MatchEngine.antt =====
-- matchengine: a limit order book for one symbol.
pub mod Types
pub mod Book
pub mod Matching
pub mod Limit
pub mod Cancel
pub mod Persistence
pub mod Links
pub mod Sweeping
pub mod Accounting
pub mod BuyLoop
pub mod Measure
pub mod SellLoop
pub mod Resting
pub mod Validity
pub mod Limiting
pub mod Best
pub mod Cancelling
pub mod Sessions
mod Tests
mod LoopTests
