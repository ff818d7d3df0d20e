-- ===== src/Cashier/Agreement.antt =====
-- The in-memory cashier of cashier/internal/fake_cashier.go against that of
-- cashier/internal/postgres_cashier.go, where the database answers.
pub mod Keys
pub mod Escrows
pub mod Deposits
use mathlib.Core.Path.{fun_ext}
use secwager.Cashier.Funds.{rewritten}
use secwager.Prelude.Int.{leb_ℤ, ℤ, pos, ◌-ℤ◌, ltb_ℤ, ◌+ℤ◌}
use secwager.Cashier.Postgres.{Run, with_idempotency, fetch_account, withdraw, withdraw_tx}
use secwager.Cashier.Database.{fits, row_ok, update_versioned}
use secwager.Cashier.Fake.{
  FakeCashier, FakeRun, fake_deposit, FakeAccount, done, fake_withdraw, fake_escrow, fake_release,
  fake_deposit_escrowed, fake_confirm, fake_cancel, replay_created, account_or_new,
}
use secwager.Prelude.{
  ℕ, arith, ◌&&◌, str_eq_refl, ◌<>◌, if◌then◌else◌, false, some, ◌||◌, Option, none, not, str_eq,
  true, ◌≡◌, ◌^◌, Bool, String, Option-cases, Bool-cases, refl, ◌∙◌, inr, put, inl, ap, str_eq_iff,
}
use secwager.Cashier.Types.{
  Database, Account, no_faults, Outcome, err, CashierError, ok, snapshot_of,
}
use secwager.Cashier.Requests.{Request}

unfoldable pub fake_run : Request → FakeCashier → FakeRun
fake_run (Request.deposit_req user key amount) f = fake_deposit user key amount f
fake_run (Request.withdraw_req user key amount) f = fake_withdraw user key amount f
fake_run (Request.escrow_req user order_id amount) f = fake_escrow user order_id amount f
fake_run (Request.release_req order_id) f = fake_release order_id f
fake_run (Request.deposit_escrowed_req user deposit_ref amount) f =
    fake_deposit_escrowed user deposit_ref amount f
fake_run (Request.confirm_req user deposit_ref amount) f = fake_confirm user deposit_ref amount f
fake_run (Request.cancel_req user deposit_ref amount) f = fake_cancel user deposit_ref amount f

-- A row without its version.
abbrev pub forget : Option Account → Option FakeAccount
forget none = none
forget (some a) = some (record { gross_balance = a.gross_balance; escrowed = a.escrowed })

abbrev pub row_covered : Option Account → Bool
row_covered none = true
row_covered (some a) = row_ok a

-- The two hold the same accounts, entries and keys, and every account keeps the checks of its table.
pub record Agrees (f : FakeCashier) (db : Database) : Type 0 where
  pub accounts : (user : String) → f.accounts user ≡ forget (db.accounts user)
  pub entries : (order_id : ℕ) → f.escrows order_id ≡ db.escrow_entries order_id
  pub keys : (key : String) → f.idempotency_keys key ≡ db.idempotency_keys key
  pub covered : (user : String) → row_covered (db.accounts user) ≡ true

-- Tests of an account, which fail where the user has none.
abbrev pub on_account : (Account → Bool) → Option Account → Bool
on_account p none = false
on_account p (some a) = p a

abbrev pub is_known : Database → String → Bool
is_known db user = on_account (λ a. true) (db.accounts user)

abbrev pub covers : Database → String → ℤ → Bool
covers db user amount =
    on_account (λ a. leb_ℤ amount (a.gross_balance -ℤ a.escrowed)) (db.accounts user)

abbrev pub holds_escrow : Database → String → ℤ → Bool
holds_escrow db user amount = on_account (λ a. leb_ℤ amount a.escrowed) (db.accounts user)

-- The gross balance has room for the amount in a BIGINT.
abbrev pub has_room : Database → String → ℤ → Bool
has_room db user amount = elim (db.accounts user) [
  | none ↦ ltb_ℤ amount (pos (2 ^ 63))
  | some a ↦ ltb_ℤ (a.gross_balance +ℤ amount) (pos (2 ^ 63))
]

-- Where the two cashiers are meant to agree: keys are replayed by known users, deposits fit, and are for
-- users with ids of at most 64 characters, an order
-- id that has an entry is retried with funds for it, and escrow is given back by users who hold it.
unfoldable pub is_regular : Request → Database → Bool
is_regular (Request.deposit_req user key amount) db =
    if db.idempotency_keys key then is_known db user else fits user && has_room db user amount
is_regular (Request.withdraw_req user key amount) db =
    not (db.idempotency_keys key) || is_known db user
is_regular (Request.escrow_req user order_id amount) db = elim (db.escrow_entries order_id) [
  | none ↦ true
  | some _ ↦ covers db user amount
]
is_regular (Request.release_req order_id) db = elim (db.escrow_entries order_id) [
  | none ↦ true
  | some e ↦ holds_escrow db e.user_id e.amount && leb_ℤ (pos 0) e.amount
]
is_regular (Request.deposit_escrowed_req user deposit_ref amount) db =
    not (str_eq deposit_ref "")
    && (if db.idempotency_keys deposit_ref
        then is_known db user
        else fits user && has_room db user amount)
is_regular (Request.confirm_req user deposit_ref amount) db =
    not (str_eq deposit_ref "")
    && (if db.idempotency_keys ("confirm:" <> deposit_ref)
        then is_known db user
        else not (is_known db user) || holds_escrow db user amount)
is_regular (Request.cancel_req user deposit_ref amount) db =
    not (str_eq deposit_ref "") && is_known db user

-- What the two have in common after a request.
abbrev pub Same : FakeRun → Run → Type 0
Same (r', f') (r, db') = (r' ≡ done r) × Agrees f' db'

-- A fake account with other balances.
abbrev pub fake_with : (gross escrowed : ℤ) → FakeAccount
fake_with gross escrowed = record { gross_balance = gross; escrowed = escrowed }

module _ {f : FakeCashier} {db : Database} (agrees : Agrees f db) where
  -- Nothing has changed.
  pub stays_as : {x : FakeRun} {y : Run} (r : Outcome) → x ≡ (done r, f) → y ≡ (r, db) → Same x y
  stays_as r e e' = rw (e, e') (refl, agrees)

  -- The account `b` is stored on one side and `a` on the other.
  pub stores_as :
      (user : String) (b : FakeAccount) (a : Account) (r : Outcome) (f' : FakeCashier)
      (db' : Database) {x : FakeRun} {y : Run}
      → x ≡ (done r, f')
      → y ≡ (r, db')
      → (b.gross_balance ≡ a.gross_balance) × (b.escrowed ≡ a.escrowed)
      → row_ok a ≡ true
      → ((u : String) → f'.accounts u ≡ put f.accounts user (some b) u)
      → ((u : String) → db'.accounts u ≡ put db.accounts user (some a) u)
      → ((i : ℕ) → f'.escrows i ≡ db'.escrow_entries i)
      → ((k : String) → f'.idempotency_keys k ≡ db'.idempotency_keys k)
      → Same x y
  stores_as user b a r f' db' e e' same ok_row fake row entries keys =
      rw (e, e')
        (
          refl,
          record {
            accounts = λ u. ground (arith, fake u, row u, agrees.accounts u);
            entries = entries;
            keys = keys;
            covered = λ u. ground (arith, row u, agrees.covered u);
          },
        )

  pub keyed :
      (key k : String) → put f.idempotency_keys key true k ≡ put db.idempotency_keys key true k
  keyed key k = ground (arith, agrees.keys k)

  -- The user's account, on the other side.
  pub fake_known :
      (user : String) (a : Account)
      → db.accounts user ≡ some a
      → f.accounts user ≡ some (record { gross_balance = a.gross_balance; escrowed = a.escrowed })
  fake_known user a e = agrees.accounts user ∙ ap forget e

  pub fake_gone : (user : String) → db.accounts user ≡ none → f.accounts user ≡ none
  fake_gone user e = agrees.accounts user ∙ ap forget e

  pub row_known : (user : String) (a : Account) → db.accounts user ≡ some a → row_ok a ≡ true
  row_known user a e = ground (arith, agrees.covered user)

  -- A replayed call that creates the account finds a known user's account as it is.
  pub created_known :
      (user : String) (a : Account)
      → db.accounts user ≡ some a
      → replay_created f user ≡ (done (ok (snapshot_of a true)), f)
  created_known user a known =
      let b = fake_with a.gross_balance a.escrowed in
      let there = fake_known user a known in
      let same : account_or_new f user ≡ b = ground (arith, there) in
      let accounts : put f.accounts user (some (account_or_new f user)) ≡ f.accounts =
        fun_ext (λ u. ground (arith, same, there, str_eq_iff u user)) in
      rw (accounts, same) refl
