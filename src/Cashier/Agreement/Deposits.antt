-- ===== src/Cashier/Agreement/Deposits.antt =====
-- `Deposit` and `DepositEscrowed`, in cashier/internal/fake_cashier.go and in
-- cashier/internal/postgres_cashier.go.
use secwager.Cashier.Postgres.{Run, deposit, deposit_escrowed, with_idempotency, fetch_account}
use secwager.Cashier.Funds.{rewritten}
use secwager.Cashier.Agreement.{
  row_covered, Agrees, fake_gone, is_regular, fake_known, is_known, fake_with, Same, stays_as,
  created_known, stores_as, keyed,
}
use secwager.Prelude.Int.{ℤ, ◌+ℤ◌, pos, leb_ℤ, int_laws, ltb_ℤ}
use secwager.Cashier.Database.{fits, fits_lem, upsert_account, row_ok}
use secwager.Cashier.Fake.{
  FakeCashier, FakeAccount, FakeRun, fake_deposit_escrowed, account_or_new, fake_deposit, done,
  replay_created, write_key, store_fake,
}
use secwager.Prelude.{
  true, ◌∙◌, false, put, Option, ◌||◌, arith, inl, Bool-cases, ◌≡◌, some, refl, str_eq, inr, none,
  str_eq_refl, String, Option-cases, ◌^◌,
}
use secwager.Cashier.Types.{CashierError, Account, Database, ok, snapshot_of, no_faults, err}
use secwager.Cashier.Requests.{Request}

-- The row that an upsert leaves.
abbrev pub grown : Option Account → (gross escrowed : ℤ) → Account
grown none gross escrowed = record { gross_balance = gross; escrowed = escrowed; version = 0 }
grown (some a) gross escrowed = rewritten a (a.gross_balance +ℤ gross) (a.escrowed +ℤ escrowed)

pub grown_row :
    (o : Option Account) (gross escrowed : ℤ)
    → row_covered o ≡ true
    → leb_ℤ (pos 0) escrowed ≡ true
    → leb_ℤ escrowed gross ≡ true
    → (elim o [
      | none ↦ ltb_ℤ gross (pos (2 ^ 63))
      | some a ↦ ltb_ℤ (a.gross_balance +ℤ gross) (pos (2 ^ 63))
    ])
      ≡ true
    → row_ok (grown o gross escrowed) ≡ true
unfolding ◌+ℤ◌
grown_row none gross escrowed row low high room = ground arith
grown_row (some a) gross escrowed row low high room = ground arith

pub upsert_account_lem :
    (user : String) (gross escrowed : ℤ) (db : Database)
    → fits user ≡ true
    → row_ok (grown (db.accounts user) gross escrowed) ≡ true
    → upsert_account user gross escrowed db
      ≡ some (record db {
        accounts = put db.accounts user (some (grown (db.accounts user) gross escrowed));
      })
unfolding upsert_account
upsert_account_lem user gross escrowed db short row =
    rw (upsert_account, fits_lem user short)
      (elim (Option-cases (db.accounts user)) [
        | inl gone ↦ ground (arith, row)
        | inr (a, known) ↦ ground (arith, row)
      ])

plus_zero : (a : ℤ) → (a ≡ a +ℤ pos 0) × (pos 0 +ℤ a ≡ a)
plus_zero a = (omega int_laws, omega int_laws)

module _ {f : FakeCashier} {db : Database} (agrees : Agrees f db) where
  -- The fake's account with the same amounts added.
  abbrev fake_grown : String → (gross escrowed : ℤ) → FakeAccount
  fake_grown user gross escrowed =
      let a = account_or_new f user in fake_with (a.gross_balance +ℤ gross) (a.escrowed +ℤ escrowed)

  same_grown :
      (user : String) (gross escrowed : ℤ)
      → let a = grown (db.accounts user) gross escrowed in
        let b = fake_grown user gross escrowed in
        (b.gross_balance ≡ a.gross_balance) × (b.escrowed ≡ a.escrowed)
  same_grown user gross escrowed = elim (Option-cases (db.accounts user)) [
    | inl gone ↦ (
      ground (arith, fake_gone agrees user gone, plus_zero gross),
      ground (arith, fake_gone agrees user gone, plus_zero escrowed),
    )
    | inr (a, known) ↦ (
      ground (arith, fake_known agrees user a known),
      ground (arith, fake_known agrees user a known),
    )
  ]

  -- A new key, and an account that grows by the amounts, on both sides.
  grows_as :
      (user key : String) (gross escrowed : ℤ) (b : FakeAccount) {x : FakeRun} {y : Run}
      → b ≡ fake_grown user gross escrowed
      → row_ok (grown (db.accounts user) gross escrowed) ≡ true
      → x ≡ (
        done (ok (snapshot_of (grown (db.accounts user) gross escrowed) false)),
        write_key (store_fake (store_fake f user (account_or_new f user)) user b) key,
      )
      → y ≡ (
        ok (snapshot_of (grown (db.accounts user) gross escrowed) false),
        record db {
          accounts = put db.accounts user (some (grown (db.accounts user) gross escrowed));
          idempotency_keys = put db.idempotency_keys key true;
        },
      )
      → Same x y
  grows_as user key gross escrowed b is row e e' =
      stores_as agrees user b _ _ _ _ e e' (rw is (same_grown user gross escrowed)) row
        (λ u. ground arith) (λ u. refl) agrees.entries (keyed agrees key)

  replayed_as :
      (user : String) {x : FakeRun} {y : Run}
      → is_known db user ≡ true
      → x ≡ replay_created f user
      → ((a : Account) → db.accounts user ≡ some a → y ≡ (ok (snapshot_of a true), db))
      → Same x y
  replayed_as user is_there e e' = elim (Option-cases (db.accounts user)) [
    | inl gone ↦ ground (arith, is_there, gone)
    | inr (a, known) ↦
        stays_as agrees (ok (snapshot_of a true)) (e ∙ created_known agrees user a known)
          (e' a known)
  ]

  pub deposit-Same :
      (user key : String) (amount : ℤ)
      → is_regular (Request.deposit_req user key amount) db ≡ true
      → Same (fake_deposit user key amount f) (deposit no_faults user key amount db)
  unfolding is_regular fake_deposit deposit with_idempotency fetch_account
  deposit-Same user key amount regular = elim (Bool-cases (leb_ℤ amount (pos 0) || str_eq key "")) [
    | inl bad ↦ rw bad (refl, agrees)
    | inr fine ↦ elim (Bool-cases (db.idempotency_keys key)) [
      | inl used ↦
          replayed_as user (ground arith) (ground (arith, agrees.keys key))
            (λ a known. ground arith)
      | inr fresh ↦
          let row =
            grown_row (db.accounts user) amount (pos 0) (agrees.covered user) refl (ground arith)
              (ground arith) in
          let begun : Database = record db {
            idempotency_keys = put db.idempotency_keys key true;
          } in
          let wrote = upsert_account_lem user amount (pos 0) begun (ground arith) row in
          let same = same_grown user amount (pos 0) in
          grows_as user key amount (pos 0)
            (fake_with ((account_or_new f user).gross_balance +ℤ amount)
              (account_or_new f user).escrowed)
            (ground (arith, plus_zero (account_or_new f user).escrowed)) row
            (ground (arith, agrees.keys key, same, plus_zero (account_or_new f user).escrowed))
            (ground (arith, wrote, str_eq_refl user))
    ]
  ]

  pub deposit_escrowed-Same :
      (user deposit_ref : String) (amount : ℤ)
      → is_regular (Request.deposit_escrowed_req user deposit_ref amount) db ≡ true
      → Same
          (fake_deposit_escrowed user deposit_ref amount f)
          (deposit_escrowed no_faults user deposit_ref amount db)
  unfolding is_regular fake_deposit_escrowed deposit_escrowed with_idempotency fetch_account
  deposit_escrowed-Same user deposit_ref amount regular = elim (Bool-cases (leb_ℤ amount (pos 0))) [
    | inl bad ↦ stays_as agrees (err CashierError.plain) (ground arith) (ground arith)
    | inr fine ↦ elim (Bool-cases (db.idempotency_keys deposit_ref)) [
      | inl used ↦
          replayed_as user (ground arith) (ground (arith, agrees.keys deposit_ref))
            (λ a known. ground arith)
      | inr fresh ↦
          let row =
            grown_row (db.accounts user) amount amount (agrees.covered user) (ground arith)
              (ground arith) (ground arith) in
          let begun : Database = record db {
            idempotency_keys = put db.idempotency_keys deposit_ref true;
          } in
          let wrote = upsert_account_lem user amount amount begun (ground arith) row in
          let same = same_grown user amount amount in
          grows_as user deposit_ref amount amount (fake_grown user amount amount) refl row
            (ground (arith, agrees.keys deposit_ref, same))
            (ground (arith, wrote, str_eq_refl user))
    ]
  ]
