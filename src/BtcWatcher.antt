-- ===== src/BtcWatcher.antt =====
-- btcwatcher: watches the chain for deposits to users' addresses, and tells the cashier.
pub mod TxStore
pub mod Chain
pub mod Watcher
pub mod Reorgs
pub mod Escrowing
pub mod Calls
pub mod Ordering
pub mod Calling
pub mod Sessions
pub mod Rounds
mod Tests
