-- ===== src/VendorRefdata.antt =====
-- vendor_refdata: the leagues' teams, players and games as the vendors list them, and the results.
pub mod Tables
pub mod Runs
pub mod Store
pub mod Mapping
pub mod Nfl
pub mod Mlb
pub mod Soccer
pub mod Populator
pub mod Statistics
pub mod NflResults
pub mod MlbResults
pub mod SoccerResults
pub mod EventFetcher
pub mod Preserving
pub mod Rows
pub mod Verdicts
pub mod Populating
pub mod Fetching
pub mod Settling
pub mod Identities
pub mod Paging
pub mod Integrity
pub mod Guarding
pub mod Reaching
pub mod Losing
mod Tests
