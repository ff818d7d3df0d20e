-- ===== src/Cashier/Agreeing.antt =====
-- Histories of requests on the in-memory cashier of cashier/internal/fake_cashier.go and on that of
-- cashier/internal/postgres_cashier.go.
use secwager.Cashier.Agreement.Escrows.{escrow-Same, release-Same}
use secwager.Cashier.Agreement.Keys.{withdraw-Same, confirm-Same, cancel-Same}
use secwager.Cashier.Agreement.Deposits.{deposit-Same, deposit_escrowed-Same}
use secwager.Cashier.Fake.{FakeCashier, FakeOutcome, done}
use secwager.Cashier.Types.{Database, Outcome, no_faults}
use secwager.Cashier.Agreement.{fake_run, Agrees, is_regular, Same}
use secwager.Prelude.{arith, Bool, map, refl, [], List, ◌∷◌, true, ◌&&◌, ◌≡◌}
use secwager.Cashier.Requests.{Request, run}

run-Same :
    {f : FakeCashier} {db : Database} (agrees : Agrees f db) (q : Request)
    → is_regular q db ≡ true
    → Same (fake_run q f) (run no_faults q db)
unfolding fake_run run
run-Same agrees (Request.deposit_req user key amount) regular =
    deposit-Same agrees user key amount regular
run-Same agrees (Request.withdraw_req user key amount) regular =
    withdraw-Same agrees user key amount regular
run-Same agrees (Request.escrow_req user order_id amount) regular =
    escrow-Same agrees user order_id amount regular
run-Same agrees (Request.release_req order_id) regular = release-Same agrees order_id regular
run-Same agrees (Request.deposit_escrowed_req user deposit_ref amount) regular =
    deposit_escrowed-Same agrees user deposit_ref amount regular
run-Same agrees (Request.confirm_req user deposit_ref amount) regular =
    confirm-Same agrees user deposit_ref amount regular
run-Same agrees (Request.cancel_req user deposit_ref amount) regular =
    cancel-Same agrees user deposit_ref amount regular

-- What the requests are answered, one after another.
unfoldable pub outcomes : List Request → Database → List Outcome
outcomes [] db = []
outcomes (q ∷ qs) db = (run no_faults q db).0 ∷ outcomes qs (run no_faults q db).1

unfoldable pub fake_outcomes : List Request → FakeCashier → List FakeOutcome
fake_outcomes [] f = []
fake_outcomes (q ∷ qs) f = (fake_run q f).0 ∷ fake_outcomes qs (fake_run q f).1

-- Each request is regular where it comes.
unfoldable pub are_regular : List Request → Database → Bool
are_regular [] db = true
are_regular (q ∷ qs) db = is_regular q db && are_regular qs (run no_faults q db).1

-- From states that agree, and where the database answers, a history of regular requests is answered by
-- the in-memory cashier exactly as by the Postgres cashier, errors and replays included, and the
-- in-memory cashier never panics. A request is regular if deposits fit a BIGINT and are for users with
-- ids of at most 64 characters, keys that were used come from known users, references are not empty, a
-- cancellation comes from a known user, escrow that is confirmed or given back is there, and a used
-- order id is retried with funds for it.
pub fake_outcomes-outcomes :
    (qs : List Request) {f : FakeCashier} {db : Database}
    → Agrees f db
    → are_regular qs db ≡ true
    → fake_outcomes qs f ≡ map done (outcomes qs db)
unfolding fake_outcomes outcomes are_regular
fake_outcomes-outcomes [] agrees regular = refl
fake_outcomes-outcomes (q ∷ qs) {f} {db} agrees regular =
    let (same, agrees') = run-Same agrees q (ground arith) in
    let rest =
      fake_outcomes-outcomes qs {f = (fake_run q f).1} {db = (run no_faults q db).1} agrees'
        (ground arith) in
    ground (arith, same, rest)
