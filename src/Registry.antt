-- ===== src/Registry.antt =====
-- registry: instruments, which are conjunctions of legs on games and players.
pub mod Legs
pub mod Refdata
pub mod Validate
pub mod TextOrder
pub mod Hashing
pub mod Instruments
pub mod Service
pub mod Listing
pub mod RowOrder
pub mod Joining
pub mod Finding
pub mod Pages
pub mod Paging
pub mod Reading
pub mod Rules
pub mod Loading
pub mod Entries
pub mod Endpoints
pub mod Fixture
pub mod Rostering
pub mod Rosters
pub mod Snapshots
pub mod Backing
pub mod Storing
pub mod Owning
pub mod Creating
pub mod Once
pub mod Contradictions
pub mod Accepting
pub mod Distinct
mod Tests
mod StoreTests
mod TokenTests
mod ListTests
mod BackingTests
mod RosterTests
