-- ===== src/Cashier/Requests.antt =====
-- The requests that the service of cashier/internal/service.go hands on, and what all of them have in
-- common over cashier/internal/postgres_cashier.go.
use secwager.Prelude.{ℕ, refl, true, arith, put, ◌≡◌, String}
use secwager.Prelude.Int.{ℤ}
use secwager.Cashier.Types.{Database, Faults, ok, err}
use secwager.Cashier.Postgres.{
  Run, finish, with_idempotency, deposit, withdraw, escrow, release_escrow, deposit_escrowed,
  confirm_deposit, cancel_deposit, escrow_entry, release_tx, check_available, checked,
}

pub data Request : Type 0 where
  deposit_req : (user key : String) → ℤ → Request
  withdraw_req : (user key : String) → ℤ → Request
  escrow_req : (user : String) → ℕ → ℤ → Request
  release_req : ℕ → Request
  deposit_escrowed_req : (user deposit_ref : String) → ℤ → Request
  confirm_req : (user deposit_ref : String) → ℤ → Request
  cancel_req : (user deposit_ref : String) → ℤ → Request

unfoldable pub run : Faults → Request → Database → Run
run faults (deposit_req user key amount) = deposit faults user key amount
run faults (withdraw_req user key amount) = withdraw faults user key amount
run faults (escrow_req user order_id amount) = escrow faults user order_id amount
run faults (release_req order_id) = release_escrow faults order_id
run faults (deposit_escrowed_req user deposit_ref amount) =
    deposit_escrowed faults user deposit_ref amount
run faults (confirm_req user deposit_ref amount) = confirm_deposit faults user deposit_ref amount
run faults (cancel_req user deposit_ref amount) = cancel_deposit faults user deposit_ref amount

-- An outcome that is an error leaves the tables `db`.
abbrev pub IsAtomic : Database → Run → Type 0
IsAtomic db (ok _, _) = Unit
IsAtomic db (err _, db') = db' ≡ db

finish-IsAtomic : (faults : Faults) (db : Database) (r : Run) → IsAtomic db (finish faults db r)
finish-IsAtomic faults db (ok snap, db') = ground arith
finish-IsAtomic faults db (err e, db') = refl

with_idempotency-IsAtomic :
    (faults : Faults) (user key : String) (fn : Database → Run) (db : Database)
    → IsAtomic db (with_idempotency faults user key fn db)
unfolding with_idempotency
with_idempotency-IsAtomic faults user key fn db = ground (
  arith,
  finish-IsAtomic faults db
      (fn (record db { idempotency_keys = put db.idempotency_keys key true })),
)

checked-IsAtomic :
    (amount : ℤ) (key : String) (db : Database) (r : Run)
    → IsAtomic db r
    → IsAtomic db (checked amount key db r)
checked-IsAtomic amount key db r h = ground arith

escrow-IsAtomic :
    (faults : Faults) (user : String) (order_id : ℕ) (amount : ℤ) (db : Database)
    → IsAtomic db (escrow faults user order_id amount db)
unfolding escrow escrow_entry check_available
escrow-IsAtomic faults user order_id amount db = ground arith

release_escrow-IsAtomic :
    (faults : Faults) (order_id : ℕ) (db : Database)
    → IsAtomic db (release_escrow faults order_id db)
unfolding release_escrow release_tx
release_escrow-IsAtomic faults order_id db = ground arith

-- Every request is atomic: whatever fails on the way, one that ends in an error changes no table.
pub run-IsAtomic : (faults : Faults) (q : Request) (db : Database) → IsAtomic db (run faults q db)
unfolding run deposit withdraw deposit_escrowed confirm_deposit cancel_deposit
run-IsAtomic faults (deposit_req user key amount) db =
    checked-IsAtomic amount key db _ (with_idempotency-IsAtomic faults user key _ db)
run-IsAtomic faults (withdraw_req user key amount) db =
    checked-IsAtomic amount key db _ (with_idempotency-IsAtomic faults user key _ db)
run-IsAtomic faults (escrow_req user order_id amount) db =
    escrow-IsAtomic faults user order_id amount db
run-IsAtomic faults (release_req order_id) db = release_escrow-IsAtomic faults order_id db
run-IsAtomic faults (deposit_escrowed_req user deposit_ref amount) db =
    checked-IsAtomic amount deposit_ref db _
      (with_idempotency-IsAtomic faults user deposit_ref _ db)
run-IsAtomic faults (confirm_req user deposit_ref amount) db =
    checked-IsAtomic amount deposit_ref db _ (with_idempotency-IsAtomic faults user _ _ db)
run-IsAtomic faults (cancel_req user deposit_ref amount) db =
    checked-IsAtomic amount deposit_ref db _ (with_idempotency-IsAtomic faults user _ _ db)
