-- ===== src/Lib.antt =====
-- secwager: a prediction-market exchange of several services. This library models the parts that
-- hold money and orders.
--
--   matchengine (matchengine/types.go, book.go): the order book of one symbol. `MatchEngine/Types` has
--     the types, `Book` the helpers and the best prices, `Matching` matchBuy and matchSell, `Limit`,
--     `Cancel` and `Persistence` (Snapshot, Restore) the other methods. The arrays of the book are
--     functions of the index; uint32 arithmetic wraps at 2^32. The rest of the folder has the proofs:
--     `Links` (chains of a level), `Sweeping` and `Accounting` (one fill), `Measure`, `BuyLoop` and
--     `SellLoop` (the loops), `Resting`, `Validity`, `Limiting`, `Cancelling`, `Best`, `Sessions`.
--   market (market/internal/service/service.go, snapshot.go): feeds the books from Kafka. `Messages`
--     has the protobuf messages, `Service` the commands, replay, the live loop and start-up, `Snapshot`
--     the snapshot messages; `Consuming`, `Replaying` and `RoundTrip` the proofs. It calls
--     `MatchEngine.Limit`, `Cancel` and `Persistence`.
--   cashier (cashier/internal/postgres_cashier.go, service.go, cashier.go, cashier/db/migrations):
--     accounts and escrow. `Types` and `Database` have the tables and the SQL statements, `Postgres`
--     the methods, `Service` the gRPC layer over the interface `Cashier`; `Requests`, `Once`, `Funds`,
--     `Deposits` and `Serving` the proofs. `Fake` is the in-memory cashier (fake_cashier.go), `Agreement`
--     and `Agreeing` compare it with the methods on Postgres.
--   btcwatcher (btcwatcher/internal/watcher.go, txstore.go): deposits from the chain. `TxStore` has
--     the table and its statements, `Chain` what is read off blocks and users, `Watcher` the handlers
--     and one round of the loop; `Reorgs` and `Escrowing` the proofs on one round, `Calls`, `Ordering`,
--     `Calling`, `Sessions` and `Rounds` those on the calls of any rounds. It calls the cashier as a
--     parameter, by the client's three methods.
--   registry (registry/internal, with the tables of registry/db/migrations): `Legs` has the messages,
--     `Refdata` the reference store, `Rules` its fixed rules, `Loading` the load from the tables of
--     vendor_refdata and the cache, `Fixture` the load from a file, `Endpoints` the reads; `Validate` the
--     three phases of validation and the expiry, `TextOrder` and `Hashing` the id of an instrument,
--     `Instruments` the rows and `Create`, `Service` CreateInstrument and Get, `Listing` List.
--     `Contradictions`, `Distinct`, `Accepting`, `Storing`, `Owning`, `Creating` and `Once` have the proofs
--     on instruments; `RowOrder`, `Joining`, `Finding`, `Pages`, `Reading` and `Paging` those on List;
--     `Entries`, `Rostering`, `Rosters`, `Snapshots` and `Backing` those on the reference data. The hashes
--     of a leg and of a text, the collation of the database and the encoding of page tokens are parameters.
--   userregistration (userregistration/internal/service.go, cognito.go, userregistration/db/migrations):
--     `Service` has RegisterUser and GetUser over the table of users and a Cognito pool, `Saga` the proof.
--   vendor_refdata (vendor_refdata/internal, with the tables of registry/db/migrations): teams, players,
--     games and results from the vendors. `Tables` and `Store` have the statements, `Mapping` the ids,
--     `Runs` how a call ends and how its caller goes on; `Nfl`, `Mlb`, `Soccer` and `Populator` the
--     refresh, `NflResults`, `MlbResults`, `SoccerResults`, `Statistics` and `EventFetcher` the results.
--     `Preserving`, `Populating` and `Fetching` carry a relation from the statements to whole runs;
--     `Rows`, `Verdicts`, `Settling`, `Identities`, `Integrity`, `Guarding`, `Reaching`, `Paging` and
--     `Losing` the proofs.
--
-- Loops. The loop that skips dead orders follows a chain along which ids grow, so the number of slots
-- is fuel enough. The loops of matchBuy and matchSell run on 65537 * (slots + 2) rounds: each round
-- takes a price away from what is left to look at, or an order from its level. The pages of a
-- vendor's list of players are taken on fuel, one more than the pages there are. A caller of List asks
-- for at most one page more than there are rows. All other loops are over lists.
--
-- Faults. Which database calls of a request fail is a parameter (`Faults`, `TxFaults`). A request of
-- the cashier runs in one transaction and locks its rows, so requests are one after another; a commit
-- that fails has not committed. In vendor_refdata and userregistration every statement commits on its
-- own. Texts have no character NUL, which Postgres stores in none. The id of a cashier's account has at most
-- 64 characters, as its column says; other text columns take any length, so a text that is too long for
-- its column, or a key too long for its index, stands among the failing calls. The sums of NFL statistics
-- are taken not to overflow.
--
-- Parameters: the decoder of the protobuf library, the hashes of a leg and of a text, the collation of
-- the database, JSON with base64, and the cashier as the watcher's client calls it. The data that Kafka,
-- the Bitcoin node, the fixture file and the list of users give are arguments. Cognito, KMS and the
-- Bitcoin library, the vendors' answers, and Go's text and time functions and its order of walking a map,
-- are parameters too; the reference store walks its maps in the order in which they were filled.
--
-- Not modelled: generated protobuf code, command entry points, the SPV node, leader election, the user
-- store, the vendors' HTTP clients, the user interface and the infrastructure files, logging, and the
-- clients of Kafka, Postgres and the file system. They are I/O, generated, or wiring, or outside the
-- parts named above. Of the books that are restored from a snapshot of the market nothing is shown but
-- the round trip of the messages.
pub mod Prelude
pub mod MatchEngine
pub mod Market
pub mod Cashier
pub mod BtcWatcher
pub mod Registry
pub mod UserRegistration
pub mod VendorRefdata
