-- ===== src/Cashier/Serving.antt =====
-- What the service of cashier/internal/service.go guarantees over the cashier that it is started with.
use secwager.Prelude.Int.{ℤ, pos, leb_ℤ}
use secwager.Prelude.{
  Bool, Option, String, arith, false, none, refl, some, str_eq, true, ◌||◌, ◌≡◌, if◌then◌else◌,
}
use secwager.Cashier.Types.{CashierError, Database, Faults, err, ok}
use secwager.Cashier.Postgres.{Run, check_available}
use secwager.Cashier.Requests.{IsAtomic, Request, run, run-IsAtomic}
use secwager.Cashier.Service.{
  Call, Code, Response, postgres_cashier, response, serve, status, to_response,
}

-- The amount of a request, and the key or reference that it must have.
abbrev pub amount_of : Call → Option ℤ
amount_of (Call.request (Request.deposit_req user key amount)) = some amount
amount_of (Call.request (Request.withdraw_req user key amount)) = some amount
amount_of (Call.request (Request.escrow_req user order_id amount)) = some amount
amount_of (Call.request (Request.release_req order_id)) = none
amount_of (Call.request (Request.deposit_escrowed_req user ref amount)) = some amount
amount_of (Call.request (Request.confirm_req user ref amount)) = some amount
amount_of (Call.request (Request.cancel_req user ref amount)) = some amount
amount_of (Call.check user) = none

abbrev pub reference_of : Call → Option String
reference_of (Call.request (Request.deposit_req user key amount)) = some key
reference_of (Call.request (Request.withdraw_req user key amount)) = some key
reference_of (Call.request (Request.escrow_req user order_id amount)) = none
reference_of (Call.request (Request.release_req order_id)) = none
reference_of (Call.request (Request.deposit_escrowed_req user ref amount)) = some ref
reference_of (Call.request (Request.confirm_req user ref amount)) = some ref
reference_of (Call.request (Request.cancel_req user ref amount)) = some ref
reference_of (Call.check user) = none

-- The amount is not positive, or the key is empty.
abbrev pub is_malformed : Call → Bool
is_malformed call = elim (amount_of call) [
  | none ↦ false
  | some amount ↦ elim (reference_of call) [
    | none ↦ leb_ℤ amount (pos 0)
    | some key ↦ leb_ℤ amount (pos 0) || str_eq key ""
  ]
]

-- What the cashier on its own makes of the call.
abbrev pub alone : Faults → Call → Database → Run
alone faults (Call.request q) db = run faults q db
alone faults (Call.check user) db = (check_available faults user db, db)

-- The answer to a call that is malformed or is not, where the cashier on its own does `own`.
abbrev pub IsServed : (malformed : Bool) → Database → (own : Run) → Response × Database → Type 0
IsServed true db own (r, db') = (r ≡ status Code.invalid_argument) × (db' ≡ db)
IsServed false db (ok snap, own) (r, db') = (r ≡ response snap) × (db' ≡ own)
IsServed false db (err CashierError.insufficient_funds, own) (r, db') =
    (r ≡ status Code.failed_precondition) × (db' ≡ db)
IsServed false db (err CashierError.unknown_user, own) (r, db') =
    (r ≡ status Code.not_found) × (db' ≡ db)
IsServed false db (err CashierError.unknown_escrow, own) (r, db') =
    (r ≡ status Code.not_found) × (db' ≡ db)
IsServed false db (err CashierError.plain, own) (r, db') = (r ≡ status Code.internal) × (db' ≡ db)

passed_on :
    (db : Database) (own : Run) → IsAtomic db own → IsServed false db own (to_response own.0, own.1)
passed_on db (ok snap, db') h = (refl, refl)
passed_on db (err CashierError.insufficient_funds, db') h = (refl, h)
passed_on db (err CashierError.unknown_user, db') h = (refl, h)
passed_on db (err CashierError.unknown_escrow, db') h = (refl, h)
passed_on db (err CashierError.plain, db') h = (refl, h)

guarded_lem :
    (bad : Bool) (db : Database) (own : Run)
    → IsAtomic db own
    → IsServed bad db own
        (if bad then (status Code.invalid_argument, db) else (to_response own.0, own.1))
guarded_lem true db own h = (refl, refl)
guarded_lem false db own h = passed_on db own h

-- Every call on the service, whichever database calls fail: one with an amount that is not positive, or
-- with an empty key where one is needed, is answered with InvalidArgument, and changes no table; any other
-- has the answer and the tables that the cashier on its own gives, or, where the cashier gives an error,
-- the code of that error, which is FailedPrecondition for insufficient funds, NotFound for an unknown user
-- or escrow and Internal for the rest, and then no table has changed.
pub serve-IsServed :
    (faults : Faults) (call : Call) (db : Database)
    → IsServed
        (is_malformed call)
        db
        (alone faults call db)
        (serve (postgres_cashier faults) call db)
unfolding serve run
serve-IsServed faults (Call.check user) db =
    passed_on db (alone faults (Call.check user) db) (ground arith)
serve-IsServed faults (Call.request (Request.deposit_req user key amount)) db =
    guarded_lem _ db _ (run-IsAtomic faults (Request.deposit_req user key amount) db)
serve-IsServed faults (Call.request (Request.withdraw_req user key amount)) db =
    guarded_lem _ db _ (run-IsAtomic faults (Request.withdraw_req user key amount) db)
serve-IsServed faults (Call.request (Request.escrow_req user order_id amount)) db =
    guarded_lem _ db _ (run-IsAtomic faults (Request.escrow_req user order_id amount) db)
serve-IsServed faults (Call.request (Request.release_req order_id)) db =
    passed_on db _ (run-IsAtomic faults (Request.release_req order_id) db)
serve-IsServed faults (Call.request (Request.deposit_escrowed_req user ref amount)) db =
    guarded_lem _ db _ (run-IsAtomic faults (Request.deposit_escrowed_req user ref amount) db)
serve-IsServed faults (Call.request (Request.confirm_req user ref amount)) db =
    guarded_lem _ db _ (run-IsAtomic faults (Request.confirm_req user ref amount) db)
serve-IsServed faults (Call.request (Request.cancel_req user ref amount)) db =
    guarded_lem _ db _ (run-IsAtomic faults (Request.cancel_req user ref amount) db)
