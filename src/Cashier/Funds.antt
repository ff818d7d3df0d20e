-- ===== src/Cashier/Funds.antt =====
-- The funds in cashier/internal/postgres_cashier.go, request by request, where the database answers.
use secwager.Prelude.{
  false, str_eq_refl, ◌+◌, put, String, some, str_eq, ◌≡◌, true, arith, update, ℕ, none, ◌≢◌,
  Option, ◌∙◌, ap, put_ne, put_self,
}
use secwager.Prelude.Int.{ℤ, pos, ◌-ℤ◌, ◌≤ℤ◌, ◌+ℤ◌, int_laws}
use secwager.Cashier.Types.{
  Database, Account, CashierError, ok, err, no_faults, snapshot_of, Escrow,
}
use secwager.Cashier.Database.{row_ok, update_versioned}
use secwager.Cashier.Postgres.{
  with_idempotency, withdraw_tx, withdraw, fetch_account, escrow, release_escrow, release_tx,
  escrow_entry, check_available,
}

-- What a user may spend.
abbrev pub available : Account → ℤ
available a = a.gross_balance -ℤ a.escrowed

-- The account `a` with other balances, written once more.
abbrev pub rewritten : Account → (gross escrowed : ℤ) → Account
rewritten a gross escrowed = record {
  gross_balance = gross;
  escrowed = escrowed;
  version = a.version + 1;
}

-- The account once an escrow of `amount` is taken.
abbrev pub holding : Account → ℤ → Account
holding a amount = rewritten a a.gross_balance (a.escrowed +ℤ amount)

module _ (user : String) (a : Account) (amount : ℤ) (db : Database)
    (known : db.accounts user ≡ some a) (ok_row : row_ok a ≡ true)
    (positive : pos 1 ≤ℤ amount) where
  covered_row :
      amount ≤ℤ available a → row_ok (rewritten a (a.gross_balance -ℤ amount) a.escrowed) ≡ true
  unfolding ◌-ℤ◌
  covered_row enough = ground arith

  -- Where the database answers, the account is known and keeps the table's checks, the amount is
  -- positive, and the key is new and not empty: if the available funds cover the withdrawal, the
  -- gross balance falls by the amount, the escrow and all other accounts stay, and the key is
  -- written; if not, it is refused and the tables stay. The table's own checks never refuse it.
  withdraw_lem :
      (key : String)
      → str_eq key "" ≡ false
      → db.idempotency_keys key ≡ false
      → (amount ≤ℤ available a
          → let (r, db') = withdraw no_faults user key amount db in
            let a' = rewritten a (a.gross_balance -ℤ amount) a.escrowed in
            (r ≡ ok (snapshot_of a' false))
            × (db'.accounts ≡ put db.accounts user (some a'))
            × (db'.escrow_entries ≡ db.escrow_entries)
            × (db'.idempotency_keys ≡ put db.idempotency_keys key true))
        × (¬ (amount ≤ℤ available a)
            → withdraw no_faults user key amount db ≡ (err CashierError.insufficient_funds, db))
  unfolding withdraw with_idempotency withdraw_tx update_versioned fetch_account
  withdraw_lem key named fresh = (
    λ enough.
        let row = covered_row enough in
        (
          ground (arith, row, str_eq_refl user),
          ground (arith, row, str_eq_refl user),
          ground (arith, row, str_eq_refl user),
          ground (arith, row, str_eq_refl user),
        ),
    λ short. ground arith,
  )

  escrowed_row :
      amount ≤ℤ available a → row_ok (rewritten a a.gross_balance (a.escrowed +ℤ amount)) ≡ true
  unfolding ◌-ℤ◌ ◌+ℤ◌
  escrowed_row enough = ground arith

  -- An order id that has an entry: the entry and the tables stay.
  escrow_duplicate :
      (order_id : ℕ) (e : Escrow)
      → db.escrow_entries order_id ≡ some e
      → (amount ≤ℤ available a
          → escrow no_faults user order_id amount db ≡ (ok (snapshot_of a false), db))
        × (¬ (amount ≤ℤ available a)
            → escrow no_faults user order_id amount db ≡ (err CashierError.insufficient_funds, db))
  unfolding escrow escrow_entry update_versioned check_available
  escrow_duplicate order_id e there =
      (λ enough. let row = escrowed_row enough in ground (arith, row), λ short. ground arith)

  -- A release of an entry of this user.
  release_entry :
      (order_id : ℕ)
      → db.escrow_entries order_id ≡ some (record { user_id = user; amount = amount })
      → row_ok (rewritten a a.gross_balance (a.escrowed -ℤ amount)) ≡ true
      → let (r, db') = release_escrow no_faults order_id db in
        let a' = rewritten a a.gross_balance (a.escrowed -ℤ amount) in
        (r ≡ ok (snapshot_of a' false))
        × (db'.accounts ≡ put db.accounts user (some a'))
        × (db'.escrow_entries ≡ update db.escrow_entries order_id none)
  unfolding release_escrow release_tx update_versioned
  release_entry order_id there row = (ground (arith, row), ground (arith, row), ground (arith, row))

  module _ (order_id : ℕ) (fresh : db.escrow_entries order_id ≡ none)
      (enough : amount ≤ℤ available a) where
    -- Where the database answers, the account is known and keeps the table's checks, and the
    -- amount is positive: an escrow under a new order id that the available funds cover is taken.
    -- The escrowed balance grows by the amount, the gross balance, all other accounts and the
    -- keys stay, and the entry is written.
    pub escrow_lem :
        let (r, db') = escrow no_faults user order_id amount db in
        (r ≡ ok (snapshot_of (holding a amount) false))
        × (db'.accounts ≡ put db.accounts user (some (holding a amount)))
        × (db'.escrow_entries
            ≡ update db.escrow_entries order_id (some (record { user_id = user; amount = amount })))
        × (db'.idempotency_keys ≡ db.idempotency_keys)
    unfolding escrow escrow_entry update_versioned
    escrow_lem =
        let row = escrowed_row enough in
        (ground (arith, row), ground (arith, row), ground (arith, row), ground (arith, row))

    after_account :
        (escrow no_faults user order_id amount db).1.accounts user ≡ some (holding a amount)
    after_account =
        ap (λ (f : String → Option Account). f user) escrow_lem.1 ∙ ground (arith, str_eq_refl user)

    after_entry :
        (escrow no_faults user order_id amount db).1.escrow_entries order_id
        ≡ some (record { user_id = user; amount = amount })
    after_entry = ap (λ (f : ℕ → Option Escrow). f order_id) escrow_lem.2 ∙ ground arith

module _ (user : String) (a : Account) (amount : ℤ) (db : Database)
    (known : db.accounts user ≡ some a) (ok_row : row_ok a ≡ true) (positive : pos 1 ≤ℤ amount)
    (order_id : ℕ) (fresh : db.escrow_entries order_id ≡ none)
    (enough : amount ≤ℤ available a) where
  holding_row : row_ok (holding a amount) ≡ true
  holding_row = escrowed_row user a amount db known ok_row positive enough

  -- Under the conditions under which an escrow is taken: a second call with the same order id
  -- does not take the amount twice. It answers with the account as it is if the funds that are
  -- left would cover the amount once more; if they would not, it is refused for insufficient
  -- funds. The tables stay either way.
  pub escrow_retry :
      let db' = (escrow no_faults user order_id amount db).1 in
      (amount ≤ℤ available (holding a amount)
        → escrow no_faults user order_id amount db'
          ≡ (ok (snapshot_of (holding a amount) false), db'))
      × (¬ (amount ≤ℤ available (holding a amount))
          → escrow no_faults user order_id amount db' ≡ (err CashierError.insufficient_funds, db'))
  escrow_retry =
      escrow_duplicate user (holding a amount) amount (escrow no_faults user order_id amount db).1
        (after_account user a amount db known ok_row positive order_id fresh enough) holding_row
        positive order_id _
        (after_entry user a amount db known ok_row positive order_id fresh enough)

  released_row :
      row_ok (rewritten (holding a amount) a.gross_balance ((holding a amount).escrowed -ℤ amount))
      ≡ true
  unfolding ◌-ℤ◌ ◌+ℤ◌
  released_row = ground arith

  back : (holding a amount).escrowed -ℤ amount ≡ a.escrowed
  back = omega int_laws

  -- Under the conditions under which an escrow is taken: releasing it right after undoes it. The
  -- balances of the user are what they were, the entry is gone, and no other account or entry has
  -- changed.
  pub release_lem :
      let db' =
        (release_escrow no_faults order_id (escrow no_faults user order_id amount db).1).1 in
      (db'.accounts user ≡ some (rewritten (holding a amount) a.gross_balance a.escrowed))
      × ((v : String) → v ≢ user → db'.accounts v ≡ db.accounts v)
      × ((i : ℕ) → db'.escrow_entries i ≡ db.escrow_entries i)
  release_lem =
      let db1 = (escrow no_faults user order_id amount db).1 in
      let (_, accounts, entries) =
        release_entry user (holding a amount) amount db1
          (after_account user a amount db known ok_row positive order_id fresh enough) holding_row
          positive order_id
          (after_entry user a amount db known ok_row positive order_id fresh enough) released_row in
      let (_, accounts', entries', _) =
        escrow_lem user a amount db known ok_row positive order_id fresh enough in
      let at = λ (v : String). ap (λ (f : String → Option Account). f v) accounts in
      let at' = λ (v : String). ap (λ (f : String → Option Account). f v) accounts' in
      let entry = λ (i : ℕ). ap (λ (f : ℕ → Option Escrow). f i) entries in
      let entry' = λ (i : ℕ). ap (λ (f : ℕ → Option Escrow). f i) entries' in
      (
        at user
            ∙ (put_self db1.accounts user _
                ∙ ap (λ e. some (rewritten (holding a amount) a.gross_balance e)) back),
        λ v other.
            at v
            ∙ (put_ne db1.accounts user v _ other ∙ (at' v ∙ put_ne db.accounts user v _ other)),
        λ i. ground (arith, entry i, entry' i, fresh),
      )
