-- ===== src/Cashier/Once.antt =====
-- The idempotency keys of cashier/internal/postgres_cashier.go: a key takes effect once.
use mathlib.Core.Path.{subst}
use mathlib.Core.Option.{some-injective}
use secwager.Prelude.{
  ℕ, true, none, ◌≡◌, ◌<>◌, arith, String, some, Option, List, ◌∷◌, Bool, str_eq_refl, str_eq_iff,
  [], refl, ◌∙◌, put, ap,
}
use secwager.Prelude.Int.{ℤ, pos}
use secwager.Cashier.Types.{Database, Faults, CashierError, AccountSnapshot, ok}
use secwager.Cashier.Database.{upsert_account, subtract, update_versioned}
use secwager.Cashier.Postgres.{
  Run, write_then_fetch, update_then_fetch, withdraw_tx, escrow, release_escrow, release_tx,
  escrow_entry, check_available, with_idempotency, checked, deposit, withdraw, deposit_escrowed,
  confirm_deposit, cancel_deposit,
}
use secwager.Cashier.Requests.{Request, run}

-- The key that a request writes; a release and an escrow have their order id instead.
abbrev pub key_of : Request → Option String
key_of (Request.deposit_req user key amount) = some key
key_of (Request.withdraw_req user key amount) = some key
key_of (Request.escrow_req user order_id amount) = none
key_of (Request.release_req order_id) = none
key_of (Request.deposit_escrowed_req user deposit_ref amount) = some deposit_ref
key_of (Request.confirm_req user deposit_ref amount) = some ("confirm:" <> deposit_ref)
key_of (Request.cancel_req user deposit_ref amount) = some ("cancel:" <> deposit_ref)

abbrev KeepsKeys : Database → Run → Type 0
KeepsKeys db r = r.1.idempotency_keys ≡ db.idempotency_keys

abbrev Holds : String → Database → Type 0
Holds k db = db.idempotency_keys k ≡ true

upsert-KeepsKeys :
    (faults : Faults) (user : String) (gross escrowed : ℤ) (db : Database)
    → KeepsKeys db (write_then_fetch faults user (upsert_account user gross escrowed db) db)
unfolding upsert_account
upsert-KeepsKeys faults user gross escrowed db = ground arith

subtract-KeepsKeys :
    (faults : Faults) (user : String) (e : CashierError) (gross escrowed : ℤ) (least : Option ℤ)
    (db : Database)
    → KeepsKeys db (update_then_fetch faults user e (subtract user gross escrowed least db) db)
unfolding subtract
subtract-KeepsKeys faults user e gross escrowed least db = ground arith

withdraw_tx-KeepsKeys :
    (faults : Faults) (user : String) (amount : ℤ) (db : Database)
    → KeepsKeys db (withdraw_tx faults user amount db)
unfolding withdraw_tx update_versioned
withdraw_tx-KeepsKeys faults user amount db = ground arith

escrow-KeepsKeys :
    (faults : Faults) (user : String) (order_id : ℕ) (amount : ℤ) (db : Database)
    → KeepsKeys db (escrow faults user order_id amount db)
unfolding escrow escrow_entry check_available update_versioned
escrow-KeepsKeys faults user order_id amount db = ground arith

release-KeepsKeys :
    (faults : Faults) (order_id : ℕ) (db : Database)
    → KeepsKeys db (release_escrow faults order_id db)
unfolding release_escrow release_tx update_versioned
release-KeepsKeys faults order_id db = ground arith

-- What `withIdempotency` does to the keys, and, where the key is held, to the tables.
record Keyed (k : String) (db : Database) (r : Run) : Type 0 where
  keeps : (j : String) → Holds j db → Holds j r.1
  writes : (s : AccountSnapshot) → r.0 ≡ ok s → Holds k r.1
  idle : Holds k db → r.1 ≡ db

with_idempotency-Keyed :
    (faults : Faults) (user k : String) (fn : Database → Run) (db : Database)
    → ((db' : Database) → KeepsKeys db' (fn db'))
    → Keyed k db (with_idempotency faults user k fn db)
unfolding with_idempotency
with_idempotency-Keyed faults user k fn db same =
    let begun : Database = record db { idempotency_keys = put db.idempotency_keys k true } in
    let at = λ (j : String). ap (λ (f : String → Bool). f j) (same begun) in
    record {
      keeps = λ j held. ground (arith, at j, str_eq_iff j k);
      writes = λ s e. ground (arith, at k, str_eq_refl k);
      idle = λ held. ground arith;
    }

checked-Keyed :
    (amount : ℤ) (key k : String) (db : Database) (r : Run)
    → Keyed k db r
    → Keyed k db (checked amount key db r)
checked-Keyed amount key k db r h = record {
  keeps = λ j held. ground (arith, h.keeps j held);
  writes = λ s e. ground (arith, h.writes s);
  idle = λ held. ground (arith, h.idle held);
}

Keyed-key : {k k' : String} {r : Run} (db : Database) → k ≡ k' → Keyed k db r → Keyed k' db r
Keyed-key {r} db e h = subst (λ j. Keyed j db r) e h

run-Keyed :
    (faults : Faults) (q : Request) (db : Database) (k : String)
    → key_of q ≡ some k
    → Keyed k db (run faults q db)
unfolding run deposit withdraw deposit_escrowed confirm_deposit cancel_deposit
run-Keyed faults (Request.deposit_req user key amount) db k e =
    Keyed-key db (some-injective _ _ e) (
      checked-Keyed amount key key db _ (
        with_idempotency-Keyed faults user key _ db
          (λ db'. upsert-KeepsKeys faults user amount (pos 0) db')))
run-Keyed faults (Request.withdraw_req user key amount) db k e =
    Keyed-key db (some-injective _ _ e) (
      checked-Keyed amount key key db _ (
        with_idempotency-Keyed faults user key _ db
          (λ db'. withdraw_tx-KeepsKeys faults user amount db')))
run-Keyed faults (Request.escrow_req user order_id amount) db k e = cc
run-Keyed faults (Request.release_req order_id) db k e = cc
run-Keyed faults (Request.deposit_escrowed_req user ref amount) db k e =
    Keyed-key db (some-injective _ _ e) (
      checked-Keyed amount ref ref db _ (
        with_idempotency-Keyed faults user ref _ db
          (λ db'. upsert-KeepsKeys faults user amount amount db')))
run-Keyed faults (Request.confirm_req user ref amount) db k e =
    Keyed-key db (some-injective _ _ e) (
      checked-Keyed amount ref _ db _ (
        with_idempotency-Keyed faults user _ _ db (λ db'.
          subtract-KeepsKeys faults user CashierError.unknown_user (pos 0) amount none db')))
run-Keyed faults (Request.cancel_req user ref amount) db k e = Keyed-key db (some-injective _ _ e) (
    checked-Keyed amount ref _ db _ (
      with_idempotency-Keyed faults user _ _ db (λ db'.
        subtract-KeepsKeys faults user CashierError.insufficient_funds amount amount (some amount)
          db')))

-- A key that is held stays held, whatever is requested.
run-Holds :
    (faults : Faults) (q : Request) (db : Database) (j : String)
    → Holds j db
    → Holds j (run faults q db).1
unfolding run
run-Holds faults (Request.escrow_req user order_id amount) db j held =
    ap (λ (f : String → Bool). f j) (escrow-KeepsKeys faults user order_id amount db) ∙ held
run-Holds faults (Request.release_req order_id) db j held =
    ap (λ (f : String → Bool). f j) (release-KeepsKeys faults order_id db) ∙ held
run-Holds faults (Request.deposit_req user key amount) db j held =
    (run-Keyed faults (Request.deposit_req user key amount) db _ refl).keeps j held
run-Holds faults (Request.withdraw_req user key amount) db j held =
    (run-Keyed faults (Request.withdraw_req user key amount) db _ refl).keeps j held
run-Holds faults (Request.deposit_escrowed_req user ref amount) db j held =
    (run-Keyed faults (Request.deposit_escrowed_req user ref amount) db _ refl).keeps j held
run-Holds faults (Request.confirm_req user ref amount) db j held =
    (run-Keyed faults (Request.confirm_req user ref amount) db _ refl).keeps j held
run-Holds faults (Request.cancel_req user ref amount) db j held =
    (run-Keyed faults (Request.cancel_req user ref amount) db _ refl).keeps j held

-- Requests one after another, each with its own faults.
pub run_all : List (Faults × Request) → Database → Database
run_all [] db = db
run_all ((faults, q) ∷ rest) db = run_all rest (run faults q db).1

run_all-Holds :
    (rest : List (Faults × Request)) (db : Database) (j : String)
    → Holds j db
    → Holds j (run_all rest db)
unfolding run_all
run_all-Holds [] db j held = held
run_all-Holds ((faults, q) ∷ rest) db j held =
    run_all-Holds rest (run faults q db).1 j (run-Holds faults q db j held)

-- Once a request with a key has succeeded, a request with the same key changes no table, however
-- many other requests come between the two, and whatever fails in any of them.
pub run_once :
    (faults faults' : Faults) (q q' : Request) (k : String) (db : Database) (s : AccountSnapshot)
    (between : List (Faults × Request))
    → key_of q ≡ some k
    → key_of q' ≡ some k
    → (run faults q db).0 ≡ ok s
    → let db' = run_all between (run faults q db).1 in (run faults' q' db').1 ≡ db'
run_once faults faults' q q' k db s between e e' done =
    let db' = run_all between (run faults q db).1 in
    (run-Keyed faults' q' db' k e').idle
      (run_all-Holds between (run faults q db).1 k ((run-Keyed faults q db k e).writes s done))
