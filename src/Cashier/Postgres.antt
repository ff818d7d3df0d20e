-- ===== src/Cashier/Postgres.antt =====
-- `PostgresCashier` of cashier/internal/postgres_cashier.go. A request that ends in an error leaves the
-- tables as they were: its transaction is rolled back.
use secwager.Prelude.{
  ℕ, true, some, false, none, ◌==◌, update, Option, if◌then◌else◌, ◌||◌, String, put, str_eq, ◌<>◌,
}
use secwager.Prelude.Int.{ℤ, pos, ◌+ℤ◌, ◌-ℤ◌, ltb_ℤ, leb_ℤ}
use secwager.Cashier.Types.{
  Escrow, Database, Outcome, CashierError, AccountSnapshot, DbCall, Faults, snapshot_of, ok, err,
  plain,
}
use secwager.Cashier.Database.{upsert_account, update_versioned, subtract}

-- What a transaction comes to: the outcome, and the tables that it would commit.
abbrev pub Run : Type 0
Run = Outcome × Database

abbrev fail : CashierError → Database → Run
fail e db = (err e, db)

-- The end of a transaction: an outcome that is an error rolls back to `db`.
abbrev pub finish : Faults → Database → Run → Run
finish faults db (err e, db') = fail e db
finish faults db (ok snap, db') = if faults DbCall.commit then fail plain db else (ok snap, db')

unfoldable pub fetch_account : Faults → String → Database → Outcome
fetch_account faults user db =
    if faults DbCall.fetch_snapshot
    then err plain
    else elim (db.accounts user) [ none ↦ err plain | some a ↦ ok (snapshot_of a false) ]

-- `withIdempotency`: the key is written in the transaction of `fn`, unless it is there already.
unfoldable pub with_idempotency : Faults → (user key : String) → (Database → Run) → Database → Run
with_idempotency faults user key fn db =
    if faults DbCall.begin_tx || faults DbCall.insert_key
    then fail plain db
    else if db.idempotency_keys key
    then (
      if faults DbCall.replay_read
          then err plain
          else elim (db.accounts user) [ none ↦ err plain | some a ↦ ok (snapshot_of a true) ],
      db,
    )
    else finish faults db (fn (record db { idempotency_keys = put db.idempotency_keys key true }))

-- A statement that changes an account, and the snapshot that follows it.
abbrev pub write_then_fetch : Faults → String → Option Database → Database → Run
write_then_fetch faults user written db =
    if faults DbCall.write_account
    then fail plain db
    else elim written [ none ↦ fail plain db | some db' ↦ (fetch_account faults user db', db') ]

-- The same for a statement that counts its rows; `e` is the error if it met none.
abbrev pub update_then_fetch :
    Faults → String → CashierError → Option (Database × ℕ) → Database → Run
update_then_fetch faults user e written db =
    if faults DbCall.write_account then fail plain db else elim written [
      | none ↦ fail plain db
      | some (db', rows) ↦ if rows == 0 then fail e db else (fetch_account faults user db', db')
    ]

-- The checks of the amount and the key that begin a method.
abbrev pub checked : ℤ → String → Database → Run → Run
checked amount key db rest = if leb_ℤ amount (pos 0) || str_eq key "" then fail plain db else rest

unfoldable pub deposit : Faults → (user key : String) → ℤ → Database → Run
deposit faults user key amount db = checked amount key db (
    with_idempotency faults user key
      (λ db'. write_then_fetch faults user (upsert_account user amount (pos 0) db') db') db)

-- `Withdraw`'s transaction: the row is read under a lock, checked, and written back.
unfoldable pub withdraw_tx : Faults → String → ℤ → Database → Run
withdraw_tx faults user amount db =
    if faults DbCall.select_account then fail plain db else elim (db.accounts user) [
      | none ↦ fail CashierError.unknown_user db
      | some a ↦
          if ltb_ℤ (a.gross_balance -ℤ a.escrowed) amount
          then fail CashierError.insufficient_funds db
          else update_then_fetch faults user plain
              (update_versioned user a.version (a.gross_balance -ℤ amount) a.escrowed db) db
    ]

unfoldable pub withdraw : Faults → (user key : String) → ℤ → Database → Run
withdraw faults user key amount db =
    checked amount key db (with_idempotency faults user key (withdraw_tx faults user amount) db)

unfoldable pub check_available : Faults → String → Database → Outcome
check_available faults user db =
    if faults DbCall.check_read then err plain else elim (db.accounts user) [
      | none ↦ ok (record { gross_balance = pos 0; escrowed = pos 0; is_replay = false })
      | some a ↦ ok (snapshot_of a false)
    ]

-- The second half of `Escrow`, once the account holds the new escrow: the entry is inserted, and a
-- duplicate order id rolls back and answers with the account as it stands.
unfoldable pub escrow_entry : Faults → String → ℕ → ℤ → AccountSnapshot → (db db' : Database) → Run
escrow_entry faults user order_id amount snap db db' =
    if faults DbCall.insert_escrow then fail plain db else elim (db'.escrow_entries order_id) [
      | some _ ↦
          if faults DbCall.rollback then fail plain db else (check_available faults user db, db)
      | none ↦ finish faults db (
        ok snap,
        record db' {
          escrow_entries =
              update db'.escrow_entries order_id
                (some (record { user_id = user; amount = amount }));
        },
      )
    ]

unfoldable pub escrow : Faults → String → ℕ → ℤ → Database → Run
escrow faults user order_id amount db =
    if leb_ℤ amount (pos 0) || faults DbCall.begin_tx || faults DbCall.select_account
    then fail plain db
    else elim (db.accounts user) [
      | none ↦ fail CashierError.unknown_user db
      | some a ↦
          if ltb_ℤ (a.gross_balance -ℤ a.escrowed) amount
          then fail CashierError.insufficient_funds db
          else if faults DbCall.write_account
          then fail plain db
          else let escrowed = a.escrowed +ℤ amount in
            let snap : AccountSnapshot = record {
              gross_balance = a.gross_balance;
              escrowed = escrowed;
              is_replay = false;
            } in
            elim (update_versioned user a.version a.gross_balance escrowed db) [
              | none ↦ fail plain db
              | some (db', rows) ↦
                  if rows == 0
                  then fail plain db
                  else escrow_entry faults user order_id amount snap db db'
            ]
    ]

-- The transaction of `ReleaseEscrow`, behind the read of the entry `e` outside it.
unfoldable pub release_tx : Faults → ℕ → Escrow → Database → Run
release_tx faults order_id e db =
    if faults DbCall.begin_tx || faults DbCall.delete_escrow
    then fail plain db
    else elim (db.escrow_entries order_id) [
      | none ↦ fail CashierError.unknown_escrow db
      | some _ ↦
          let deleted : Database = record db {
            escrow_entries = update db.escrow_entries order_id none;
          } in
          if faults DbCall.select_account
          then fail plain db
          else elim (deleted.accounts e.user_id) [
            | none ↦ fail plain db
            | some a ↦
                let escrowed = a.escrowed -ℤ e.amount in
                let snap : AccountSnapshot = record {
                  gross_balance = a.gross_balance;
                  escrowed = escrowed;
                  is_replay = false;
                } in
                if faults DbCall.write_account
                then fail plain db
                else elim (update_versioned e.user_id a.version a.gross_balance escrowed deleted) [
                  | none ↦ fail plain db
                  | some (db', rows) ↦
                      if rows == 0 then fail plain db else finish faults db (ok snap, db')
                ]
          ]
    ]

unfoldable pub release_escrow : Faults → ℕ → Database → Run
release_escrow faults order_id db =
    if faults DbCall.read_escrow then fail plain db else elim (db.escrow_entries order_id) [
      | none ↦ fail CashierError.unknown_escrow db
      | some e ↦ release_tx faults order_id e db
    ]

unfoldable pub deposit_escrowed : Faults → (user deposit_ref : String) → ℤ → Database → Run
deposit_escrowed faults user deposit_ref amount db = checked amount deposit_ref db (
    with_idempotency faults user deposit_ref
      (λ db'. write_then_fetch faults user (upsert_account user amount amount db') db') db)

unfoldable pub confirm_deposit : Faults → (user deposit_ref : String) → ℤ → Database → Run
confirm_deposit faults user deposit_ref amount db = checked amount deposit_ref db (
    with_idempotency faults user ("confirm:" <> deposit_ref)
      (λ db'.
        update_then_fetch faults user CashierError.unknown_user
          (subtract user (pos 0) amount none db') db')
      db)

unfoldable pub cancel_deposit : Faults → (user deposit_ref : String) → ℤ → Database → Run
cancel_deposit faults user deposit_ref amount db = checked amount deposit_ref db (
    with_idempotency faults user ("cancel:" <> deposit_ref)
      (λ db'.
        update_then_fetch faults user CashierError.insufficient_funds
          (subtract user amount amount (some amount) db') db')
      db)
