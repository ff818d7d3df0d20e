-- ===== src/Cashier/Agreement/Keys.antt =====
-- The requests with idempotency keys, in cashier/internal/fake_cashier.go and in
-- cashier/internal/postgres_cashier.go.
use secwager.Cashier.Postgres.{
  withdraw, confirm_deposit, cancel_deposit, Run, with_idempotency, withdraw_tx, fetch_account,
}
use secwager.Cashier.Funds.{rewritten}
use secwager.Cashier.Database.{row_ok, subtract, update_versioned}
use secwager.Cashier.Agreement.{
  Agrees, is_regular, Same, stores_as, keyed, stays_as, fake_known, fake_gone, row_known,
  created_known, fake_with,
}
use secwager.Cashier.Fake.{
  FakeCashier, FakeAccount, fake_withdraw, fake_confirm, FakeRun, fake_cancel, done,
}
use secwager.Prelude.Int.{ℤ, ◌-ℤ◌, pos, int_laws, leb_ℤ, ltb_ℤ}
use secwager.Prelude.{
  str_eq, ◌≡◌, str_eq_refl, ◌||◌, Option-cases, inr, Bool-cases, String, refl, some, inl, true,
  false, arith, put, ◌<>◌,
}
use secwager.Cashier.Types.{
  CashierError, Database, Account, Outcome, ok, snapshot_of, no_faults, err,
}
use secwager.Cashier.Requests.{Request}

-- The rows that the requests write keep the table's checks.
debit_row :
    (a : Account) (amount : ℤ)
    → row_ok a ≡ true
    → leb_ℤ amount (pos 0) ≡ false
    → ltb_ℤ (a.gross_balance -ℤ a.escrowed) amount ≡ false
    → row_ok (rewritten a (a.gross_balance -ℤ amount) a.escrowed) ≡ true
unfolding ◌-ℤ◌
debit_row a amount row positive enough = ground arith

confirm_row :
    (a : Account) (amount : ℤ)
    → row_ok a ≡ true
    → leb_ℤ amount (pos 0) ≡ false
    → leb_ℤ amount a.escrowed ≡ true
    → row_ok (rewritten a (a.gross_balance -ℤ pos 0) (a.escrowed -ℤ amount)) ≡ true
unfolding ◌-ℤ◌
confirm_row a amount row positive enough = ground arith

cancel_row :
    (a : Account) (amount : ℤ)
    → row_ok a ≡ true
    → leb_ℤ amount (pos 0) ≡ false
    → ltb_ℤ a.escrowed amount ≡ false
    → row_ok (rewritten a (a.gross_balance -ℤ amount) (a.escrowed -ℤ amount)) ≡ true
unfolding ◌-ℤ◌
cancel_row a amount row positive enough = ground arith

minus_zero : (a : ℤ) → a ≡ a -ℤ pos 0
minus_zero a = omega int_laws

-- The tables with an account and a key written.
abbrev fake_written : FakeCashier → (user key : String) → FakeAccount → FakeCashier
fake_written f user key b = record f {
  accounts = put f.accounts user (some b);
  idempotency_keys = put f.idempotency_keys key true;
}

abbrev written : Database → (user key : String) → Account → Database
written db user key a = record db {
  accounts = put db.accounts user (some a);
  idempotency_keys = put db.idempotency_keys key true;
}

module _ {f : FakeCashier} {db : Database} (agrees : Agrees f db) where
  -- An account and a key are written on both sides.
  writes_as :
      (user key : String) (b : FakeAccount) (a : Account) (r : Outcome) {x : FakeRun} {y : Run}
      → x ≡ (done r, fake_written f user key b)
      → y ≡ (r, written db user key a)
      → (b.gross_balance ≡ a.gross_balance) × (b.escrowed ≡ a.escrowed)
      → row_ok a ≡ true
      → Same x y
  writes_as user key b a r e e' same row =
      stores_as agrees user b a r (fake_written f user key b) (written db user key a) e e' same row
        (λ u. refl) (λ u. refl) agrees.entries (keyed agrees key)

  pub withdraw-Same :
      (user key : String) (amount : ℤ)
      → is_regular (Request.withdraw_req user key amount) db ≡ true
      → Same (fake_withdraw user key amount f) (withdraw no_faults user key amount db)
  unfolding is_regular fake_withdraw withdraw with_idempotency withdraw_tx update_versioned
      fetch_account
  withdraw-Same user key amount regular =
      elim (Bool-cases (leb_ℤ amount (pos 0) || str_eq key "")) [
        | inl bad ↦ rw bad (refl, agrees)
        | inr fine ↦ elim (Bool-cases (db.idempotency_keys key)) [
          | inl used ↦ elim (Option-cases (db.accounts user)) [
            | inl gone ↦ ground (arith, regular, used, gone)
            | inr (a, known) ↦
                stays_as agrees (ok (snapshot_of a true))
                  (ground (arith, agrees.keys key, fake_known agrees user a known)) (ground arith)
          ]
          | inr fresh ↦ elim (Option-cases (db.accounts user)) [
            | inl gone ↦
                stays_as agrees (err CashierError.unknown_user)
                  (ground (arith, agrees.keys key, fake_gone agrees user gone)) (ground arith)
            | inr (a, known) ↦ elim (Bool-cases (ltb_ℤ (a.gross_balance -ℤ a.escrowed) amount)) [
              | inl short ↦
                  stays_as agrees (err CashierError.insufficient_funds)
                    (ground (arith, agrees.keys key, fake_known agrees user a known)) (ground arith)
              | inr enough ↦
                  let a' = rewritten a (a.gross_balance -ℤ amount) a.escrowed in
                  let row =
                    debit_row a amount (row_known agrees user a known) (ground arith) enough in
                  writes_as user key (fake_with a'.gross_balance a'.escrowed) a'
                    (ok (snapshot_of a' false))
                    (ground (arith, agrees.keys key, fake_known agrees user a known))
                    (ground (arith, row, str_eq_refl user)) (refl, refl) row
            ]
          ]
        ]
      ]

  pub confirm-Same :
      (user deposit_ref : String) (amount : ℤ)
      → is_regular (Request.confirm_req user deposit_ref amount) db ≡ true
      → Same
          (fake_confirm user deposit_ref amount f)
          (confirm_deposit no_faults user deposit_ref amount db)
  unfolding is_regular fake_confirm confirm_deposit with_idempotency subtract fetch_account
  confirm-Same user deposit_ref amount regular = elim (Bool-cases (leb_ℤ amount (pos 0))) [
    | inl bad ↦ stays_as agrees (err CashierError.plain) (ground arith) (ground arith)
    | inr fine ↦ elim (Bool-cases (db.idempotency_keys ("confirm:" <> deposit_ref))) [
      | inl used ↦ elim (Option-cases (db.accounts user)) [
        | inl gone ↦ ground (arith, regular, used, gone)
        | inr (a, known) ↦
            stays_as agrees (ok (snapshot_of a true))
              (ground
                (arith, agrees.keys ("confirm:" <> deposit_ref), created_known agrees user a known))
              (ground arith)
      ]
      | inr fresh ↦ elim (Option-cases (db.accounts user)) [
        | inl gone ↦
            stays_as agrees (err CashierError.unknown_user)
              (ground (arith, agrees.keys ("confirm:" <> deposit_ref), fake_gone agrees user gone))
              (ground arith)
        | inr (a, known) ↦
            let a' = rewritten a (a.gross_balance -ℤ pos 0) (a.escrowed -ℤ amount) in
            let row = confirm_row a amount (row_known agrees user a known) fine (ground arith) in
            writes_as user ("confirm:" <> deposit_ref) (fake_with a.gross_balance a'.escrowed) a'
              (ok (snapshot_of a' false))
              (ground (
                arith,
                agrees.keys ("confirm:" <> deposit_ref),
                fake_known agrees user a known,
                minus_zero a.gross_balance,
              ))
              (ground (arith, row, str_eq_refl user)) (minus_zero a.gross_balance, refl) row
      ]
    ]
  ]

  pub cancel-Same :
      (user deposit_ref : String) (amount : ℤ)
      → is_regular (Request.cancel_req user deposit_ref amount) db ≡ true
      → Same
          (fake_cancel user deposit_ref amount f)
          (cancel_deposit no_faults user deposit_ref amount db)
  unfolding is_regular fake_cancel cancel_deposit with_idempotency subtract fetch_account
  cancel-Same user deposit_ref amount regular = elim (Option-cases (db.accounts user)) [
    | inl gone ↦ ground (arith, regular, gone)
    | inr (a, known) ↦ elim (Bool-cases (leb_ℤ amount (pos 0))) [
      | inl bad ↦ stays_as agrees (err CashierError.plain) (ground arith) (ground arith)
      | inr fine ↦ elim (Bool-cases (db.idempotency_keys ("cancel:" <> deposit_ref))) [
        | inl used ↦
            stays_as agrees (ok (snapshot_of a true))
              (ground
                (arith, agrees.keys ("cancel:" <> deposit_ref), created_known agrees user a known))
              (ground arith)
        | inr fresh ↦ elim (Bool-cases (ltb_ℤ a.escrowed amount)) [
          | inl short ↦
              stays_as agrees (err CashierError.insufficient_funds)
                (ground
                  (arith, agrees.keys ("cancel:" <> deposit_ref), fake_known agrees user a known))
                (ground arith)
          | inr enough ↦
              let a' = rewritten a (a.gross_balance -ℤ amount) (a.escrowed -ℤ amount) in
              let row = cancel_row a amount (row_known agrees user a known) fine enough in
              writes_as user ("cancel:" <> deposit_ref) (fake_with a'.gross_balance a'.escrowed) a'
                (ok (snapshot_of a' false))
                (ground
                  (arith, agrees.keys ("cancel:" <> deposit_ref), fake_known agrees user a known))
                (ground (arith, row, str_eq_refl user)) (refl, refl) row
        ]
      ]
    ]
  ]
