-- ===== src/Cashier/Deposits.antt =====
-- The life of a deposit in cashier/internal/postgres_cashier.go: `DepositEscrowed`, then `ConfirmDeposit`
-- or `CancelDeposit`, where the database answers.
use secwager.Prelude.{
  none, put, ◌<>◌, some, false, str_eq_refl, String, ◌≡◌, str_eq, arith, true, ◌∙◌, prefix_longer,
  str_eq_iff, Option, put_self, ap, refl,
}
use secwager.Prelude.Int.{ℤ, pos, ◌+ℤ◌, ◌-ℤ◌, ◌≤ℤ◌, int_laws}
use secwager.Cashier.Types.{Database, Account, CashierError, ok, err, no_faults, snapshot_of}
use secwager.Cashier.Database.{fits, row_ok, subtract}
use secwager.Cashier.Postgres.{
  with_idempotency, fetch_account, deposit_escrowed, confirm_deposit, cancel_deposit, Run,
}
use secwager.Cashier.Agreement.{row_covered, has_room}
use secwager.Cashier.Agreement.Deposits.{grown, grown_row, upsert_account_lem}
use secwager.Cashier.Funds.{rewritten, available}

module _ (user ref : String) (a : Account) (amount : ℤ) (db : Database)
    (known : db.accounts user ≡ some a) (positive : pos 1 ≤ℤ amount)
    (named : str_eq ref "" ≡ false) where
  deposit_escrowed_replay :
      db.idempotency_keys ref ≡ true
      → deposit_escrowed no_faults user ref amount db ≡ (ok (snapshot_of a true), db)
  unfolding deposit_escrowed with_idempotency
  deposit_escrowed_replay held = ground arith

  abbrev confirmed : Account
  confirmed = rewritten a (a.gross_balance -ℤ pos 0) (a.escrowed -ℤ amount)

  confirm_fresh :
      db.idempotency_keys ("confirm:" <> ref) ≡ false
      → (row_ok confirmed ≡ true
          → let (r, db') = confirm_deposit no_faults user ref amount db in
            (r ≡ ok (snapshot_of confirmed false))
            × (db'.accounts ≡ put db.accounts user (some confirmed)))
        × (row_ok confirmed ≡ false
            → confirm_deposit no_faults user ref amount db ≡ (err CashierError.plain, db))
  unfolding confirm_deposit with_idempotency subtract fetch_account
  confirm_fresh fresh = (
    λ row. (ground (arith, row, str_eq_refl user), ground (arith, row, str_eq_refl user)),
    λ row. ground (arith, row),
  )

  abbrev withdrawn : Account
  withdrawn = rewritten a (a.gross_balance -ℤ amount) (a.escrowed -ℤ amount)

  cancel_fresh :
      db.idempotency_keys ("cancel:" <> ref) ≡ false
      → amount ≤ℤ a.escrowed
      → row_ok withdrawn ≡ true
      → let (r, db') = cancel_deposit no_faults user ref amount db in
        (r ≡ ok (snapshot_of withdrawn false))
        × (db'.accounts ≡ put db.accounts user (some withdrawn))
  unfolding cancel_deposit with_idempotency subtract fetch_account
  cancel_fresh fresh enough row =
      (ground (arith, row, str_eq_refl user), ground (arith, row, str_eq_refl user))

confirm_key : (ref : String) → str_eq ("confirm:" <> ref) ref ≡ false
confirm_key ref =
    ground (arith, str_eq_iff ("confirm:" <> ref) ref, prefix_longer "confirm:" ref (omega arith))

cancel_key : (ref : String) → str_eq ("cancel:" <> ref) ref ≡ false
cancel_key ref =
    ground (arith, str_eq_iff ("cancel:" <> ref) ref, prefix_longer "cancel:" ref (omega arith))

-- The balances of a user who may have no account.
abbrev pub gross_of : Option Account → ℤ
gross_of none = pos 0
gross_of (some a) = a.gross_balance

abbrev pub escrowed_of : Option Account → ℤ
escrowed_of none = pos 0
escrowed_of (some a) = a.escrowed

abbrev pub available_of : Option Account → ℤ
available_of o = gross_of o -ℤ escrowed_of o

-- What a deposit, its confirmation and its cancellation come to.
deposit_balances :
    (o : Option Account) (amount : ℤ)
    → let b = grown o amount amount in
      (available b ≡ available_of o)
      × (b.gross_balance -ℤ pos 0 ≡ gross_of o +ℤ amount)
      × (b.gross_balance -ℤ pos 0 -ℤ (b.escrowed -ℤ amount) ≡ available_of o +ℤ amount)
      × (b.gross_balance -ℤ amount ≡ gross_of o)
      × (b.escrowed -ℤ amount ≡ escrowed_of o)
deposit_balances none amount =
    (omega int_laws, omega int_laws, omega int_laws, omega int_laws, omega int_laws)
deposit_balances (some a) amount =
    (omega int_laws, omega int_laws, omega int_laws, omega int_laws, omega int_laws)

freed_rows :
    (b : Account) (amount : ℤ)
    → row_ok b ≡ true
    → pos 1 ≤ℤ amount
    → amount ≤ℤ b.escrowed
    → (row_ok (rewritten b (b.gross_balance -ℤ pos 0) (b.escrowed -ℤ amount)) ≡ true)
      × (row_ok (rewritten b (b.gross_balance -ℤ amount) (b.escrowed -ℤ amount)) ≡ true)
unfolding ◌-ℤ◌
freed_rows b amount row positive enough = (ground arith, ground arith)

in_escrow :
    (o : Option Account) (amount : ℤ)
    → row_covered o ≡ true
    → amount ≤ℤ (grown o amount amount).escrowed
unfolding ◌+ℤ◌
in_escrow none amount row = ground arith
in_escrow (some a) amount row = ground arith

module _ (user ref : String) (amount : ℤ) (db : Database) (short : fits user ≡ true)
    (covered : row_covered (db.accounts user) ≡ true) (positive : pos 1 ≤ℤ amount)
    (named : str_eq ref "" ≡ false) (fresh : db.idempotency_keys ref ≡ false)
    (room : has_room db user amount ≡ true) where
  abbrev pending : Account
  pending = grown (db.accounts user) amount amount

  pending_row : row_ok pending ≡ true
  pending_row =
      grown_row (db.accounts user) amount amount covered (ground (arith, positive)) (ground arith)
        room

  taken :
      let db' = (deposit_escrowed no_faults user ref amount db).1 in
      (db'.accounts user ≡ some pending)
      × ((j : String) → str_eq j ref ≡ false → db'.idempotency_keys j ≡ db.idempotency_keys j)
  unfolding deposit_escrowed with_idempotency fetch_account
  taken =
      let begun : Database = record db { idempotency_keys = put db.idempotency_keys ref true } in
      let wrote = upsert_account_lem user amount amount begun short pending_row in
      (
        ground (arith, wrote, positive, str_eq_refl user),
        λ j other. ground (arith, wrote, positive, str_eq_refl user, other),
      )

  -- Where the database answers, the user's id has at most 64 characters, the account, where there is
  -- one, keeps the table's checks, the amount is positive, the sum is in the range of BIGINT, the
  -- reference is not empty, and the keys of the deposit and of its confirmation are new: a deposit that
  -- is put in escrow leaves what the user may spend as it was, which is 0 for a user without an account,
  -- who then has one; once it is confirmed the gross balance and what the user may spend have both
  -- grown by exactly the amount.
  pub deposit_then_confirm :
      db.idempotency_keys ("confirm:" <> ref) ≡ false
      → let db1 = (deposit_escrowed no_faults user ref amount db).1 in
        let db2 = (confirm_deposit no_faults user ref amount db1).1 in
        ((b : Account) × (db1.accounts user ≡ some b)
          × (available b ≡ available_of (db.accounts user)))
        × ((c : Account) × (db2.accounts user ≡ some c)
            × (c.gross_balance ≡ gross_of (db.accounts user) +ℤ amount)
            × (available c ≡ available_of (db.accounts user) +ℤ amount))
  deposit_then_confirm unconfirmed =
      let (known, same) = taken in
      let (same_available, gross, both, _, _) = deposit_balances (db.accounts user) amount in
      let rows =
        freed_rows pending amount pending_row positive
          (in_escrow (db.accounts user) amount covered) in
      let db1 = (deposit_escrowed no_faults user ref amount db).1 in
      let c = confirmed user ref pending amount db1 known positive named in
      let (_, accounts) =
        (confirm_fresh user ref pending amount db1 known positive named
            (same _ (confirm_key ref) ∙ unconfirmed)).0
          rows.0 in
      (
        (pending, known, same_available),
        (
          c,
          ap (λ (f : String → Option Account). f user) accounts ∙ put_self db1.accounts user _,
          gross,
          both,
        ),
      )

  -- Under the same conditions, with a cancellation key that is new: a deposit that is put in
  -- escrow and then cancelled leaves the balances as they were.
  deposit_then_cancel :
      db.idempotency_keys ("cancel:" <> ref) ≡ false
      → let db1 = (deposit_escrowed no_faults user ref amount db).1 in
        let db2 = (cancel_deposit no_faults user ref amount db1).1 in
        (c : Account) × (db2.accounts user ≡ some c)
        × (c.gross_balance ≡ gross_of (db.accounts user))
        × (c.escrowed ≡ escrowed_of (db.accounts user))
  deposit_then_cancel standing =
      let (known, same) = taken in
      let (_, _, _, gross, escrowed) = deposit_balances (db.accounts user) amount in
      let enough = in_escrow (db.accounts user) amount covered in
      let rows = freed_rows pending amount pending_row positive enough in
      let db1 = (deposit_escrowed no_faults user ref amount db).1 in
      let c = withdrawn user ref pending amount db1 known positive named in
      let (_, accounts) =
        cancel_fresh user ref pending amount db1 known positive named
          (same _ (cancel_key ref) ∙ standing) enough rows.1 in
      (
        c,
        ap (λ (f : String → Option Account). f user) accounts ∙ put_self db1.accounts user _,
        gross,
        escrowed,
      )

again_row :
    (a : Account) (amount : ℤ)
    → row_ok a ≡ true
    → pos 1 ≤ℤ amount
    → amount ≤ℤ a.escrowed
    → row_ok (rewritten a (a.gross_balance -ℤ pos 0) (a.escrowed -ℤ amount)) ≡ true
unfolding ◌-ℤ◌
again_row a amount row positive enough = ground arith

again_fails :
    (a : Account) (amount : ℤ)
    → row_ok a ≡ true
    → pos 1 ≤ℤ amount
    → ¬ (amount ≤ℤ a.escrowed)
    → row_ok (rewritten a (a.gross_balance -ℤ pos 0) (a.escrowed -ℤ amount)) ≡ false
unfolding ◌-ℤ◌
again_fails a amount row positive short = ground arith

-- Where the database answers, and the account is known and keeps the table's checks: a positive
-- deposit whose key was used before, as after a cancellation, is not credited again, and the
-- tables stay. If it is then confirmed under a confirmation key that is new, the amount is taken
-- out of what the user has in escrow, where that is enough; where it is not, the confirmation
-- fails and the tables stay.
pub deposit_again :
    (user ref : String) (a : Account) (amount : ℤ) (db : Database)
    → db.accounts user ≡ some a
    → row_ok a ≡ true
    → pos 1 ≤ℤ amount
    → str_eq ref "" ≡ false
    → db.idempotency_keys ref ≡ true
    → db.idempotency_keys ("confirm:" <> ref) ≡ false
    → let (r1, db1) = deposit_escrowed no_faults user ref amount db in
      let (r2, db2) = confirm_deposit no_faults user ref amount db1 in
      (r1 ≡ ok (snapshot_of a true))
      × (db1 ≡ db)
      × (amount ≤ℤ a.escrowed
          → (c : Account) × (db2.accounts user ≡ some c)
            × (c.gross_balance ≡ a.gross_balance)
            × (c.escrowed ≡ a.escrowed -ℤ amount))
      × (¬ (amount ≤ℤ a.escrowed) → (r2 ≡ err CashierError.plain) × (db2 ≡ db))
deposit_again user ref a amount db known row positive named held unconfirmed =
    let replay = deposit_escrowed_replay user ref a amount db known positive named held in
    let confirm = confirm_fresh user ref a amount db known positive named unconfirmed in
    rw replay (
      refl,
      refl,
      λ enough. (
        confirmed user ref a amount db known positive named,
        ap (λ (f : String → Option Account). f user)
              (confirm.0 (again_row a amount row positive enough)).1
            ∙ put_self db.accounts user _,
        omega int_laws,
        refl,
      ),
      λ short.
          let failed = confirm.1 (again_fails a amount row positive short) in
          (ap (λ (x : Run). x.0) failed, ap (λ (x : Run). x.1) failed),
    )
