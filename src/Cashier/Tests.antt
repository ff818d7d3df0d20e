-- ===== src/Cashier/Tests.antt =====
-- The cashier of cashier/internal/postgres_cashier.go at work, on a user with 100, of which 30 in escrow.
use secwager.Cashier.Fake.{new_fake_cashier, done}
use secwager.Cashier.Agreeing.{fake_outcomes, are_regular, outcomes, fake_outcomes-outcomes}
use secwager.Cashier.Agreement.{Agrees, is_regular}
use secwager.Cashier.Deposits.{gross_of, available_of, deposit_then_confirm, deposit_again}
use secwager.Cashier.Funds.{rewritten, available, holding, escrow_lem, release_lem, escrow_retry}
use secwager.Cashier.Database.{fits, varchar, is_blank, upsert_account, update_versioned}
use secwager.Cashier.Service.{serve, postgres_cashier, Call}
use secwager.Cashier.Postgres.{
  deposit_escrowed, escrow, release_escrow, withdraw, deposit, with_idempotency, confirm_deposit,
  withdraw_tx, fetch_account, escrow_entry, release_tx,
}
use secwager.Cashier.Once.{run_all, run_once}
use secwager.Prelude.Int.{◌-ℤ◌, pos, ◌+ℤ◌, ◌≤ℤ◌}
use secwager.Cashier.Serving.{IsServed, serve-IsServed, alone}
use secwager.Prelude.{
  ℕ, arith, ◌≢◌, ◌∷◌, String, ◌≡◌, some, [], if◌then◌else◌, false, str_eq, none, true, put, update,
  refl, List, map,
}
use secwager.Cashier.Types.{CashierError, Account, Database, no_faults, ok, snapshot_of, err}
use secwager.Cashier.Requests.{Request, IsAtomic, run, run-IsAtomic}

abbrev account : Account
account = record { gross_balance = pos 100; escrowed = pos 30; version = 4 }

abbrev sample : Database
sample = record {
  accounts = λ user. if str_eq user "ann" then some account else none;
  escrow_entries = λ i. none;
  idempotency_keys = λ key. str_eq key "old:0";
}

abbrev deposit_one : Request
deposit_one = Request.deposit_req "ann" "k1" (pos 5)

-- 90 is more than the 70 that are available.
refused : (withdraw no_faults "ann" "k1" (pos 90) sample).0 ≡ err CashierError.insufficient_funds
unfolding withdraw with_idempotency withdraw_tx ◌-ℤ◌
refused = refl

run-IsAtomic_example :
    IsAtomic sample (run no_faults (Request.withdraw_req "ann" "k1" (pos 90)) sample)
run-IsAtomic_example = run-IsAtomic no_faults (Request.withdraw_req "ann" "k1" (pos 90)) sample

abbrev credited : Account
credited = record { gross_balance = pos 105; escrowed = pos 30; version = 5 }

deposited : (run no_faults deposit_one sample).0 ≡ ok (snapshot_of credited false)
unfolding run deposit with_idempotency upsert_account varchar fetch_account ◌+ℤ◌
deposited = refl

run_once_example :
    let db =
      run_all
        ((no_faults, Request.escrow_req "ann" 3 (pos 10)) ∷ [])
        (run no_faults deposit_one sample).1 in
    (run no_faults deposit_one db).1 ≡ db
run_once_example =
    run_once no_faults no_faults deposit_one deposit_one "k1" sample _
      ((no_faults, Request.escrow_req "ann" 3 (pos 10)) ∷ []) refl refl deposited

covered : pos 40 ≤ℤ available account
unfolding ◌-ℤ◌
covered = omega arith

escrow_lem_example :
    let (r, db') = escrow no_faults "ann" 3 (pos 40) sample in
    (r ≡ ok (snapshot_of (holding account (pos 40)) false))
    × (db'.accounts ≡ put sample.accounts "ann" (some (holding account (pos 40))))
    × (db'.escrow_entries
        ≡ update sample.escrow_entries 3 (some (record { user_id = "ann"; amount = pos 40 })))
    × (db'.idempotency_keys ≡ sample.idempotency_keys)
escrow_lem_example = escrow_lem "ann" account (pos 40) sample refl refl (omega arith) 3 refl covered

escrow_retry_example :
    let db' = (escrow no_faults "ann" 3 (pos 40) sample).1 in
    (pos 40 ≤ℤ available (holding account (pos 40))
      → escrow no_faults "ann" 3 (pos 40) db'
        ≡ (ok (snapshot_of (holding account (pos 40)) false), db'))
    × (¬ (pos 40 ≤ℤ available (holding account (pos 40)))
        → escrow no_faults "ann" 3 (pos 40) db' ≡ (err CashierError.insufficient_funds, db'))
escrow_retry_example =
    escrow_retry "ann" account (pos 40) sample refl refl (omega arith) 3 refl covered

-- After 40 of 70 are in escrow, the 30 that are left do not cover 40 again.
short : ¬ (pos 40 ≤ℤ available (holding account (pos 40)))
unfolding ◌-ℤ◌ ◌+ℤ◌
short = omega arith

release_lem_example :
    let db' = (release_escrow no_faults 3 (escrow no_faults "ann" 3 (pos 40) sample).1).1 in
    (db'.accounts "ann" ≡ some (rewritten (holding account (pos 40)) (pos 100) (pos 30)))
    × ((v : String) → v ≢ "ann" → db'.accounts v ≡ sample.accounts v)
    × ((i : ℕ) → db'.escrow_entries i ≡ sample.escrow_entries i)
release_lem_example =
    release_lem "ann" account (pos 40) sample refl refl (omega arith) 3 refl covered

short_id : fits "bob" ≡ true
unfolding varchar
short_id = refl

-- An id of 65 characters is refused, unless what is over is a space.
long_id :
    (upsert_account "12345678901234567890123456789012345678901234567890123456789012345"
      (pos 5)
      (pos 0)
      sample)
    ≡ none
unfolding upsert_account varchar is_blank
long_id = refl

-- A user without an account.
deposit_then_confirm_example :
    let db1 = (deposit_escrowed no_faults "bob" "tx:0" (pos 25) sample).1 in
    let db2 = (confirm_deposit no_faults "bob" "tx:0" (pos 25) db1).1 in
    ((b : Account) × (db1.accounts "bob" ≡ some b)
      × (available b ≡ available_of (sample.accounts "bob")))
    × ((c : Account) × (db2.accounts "bob" ≡ some c)
        × (c.gross_balance ≡ gross_of (sample.accounts "bob") +ℤ pos 25)
        × (available c ≡ available_of (sample.accounts "bob") +ℤ pos 25))
deposit_then_confirm_example =
    deposit_then_confirm "bob" "tx:0" (pos 25) sample short_id refl (omega arith) refl refl refl
      refl

deposit_again_example :
    let (r1, db1) = deposit_escrowed no_faults "ann" "old:0" (pos 25) sample in
    let (r2, db2) = confirm_deposit no_faults "ann" "old:0" (pos 25) db1 in
    (r1 ≡ ok (snapshot_of account true))
    × (db1 ≡ sample)
    × (pos 25 ≤ℤ pos 30
        → (c : Account) × (db2.accounts "ann" ≡ some c)
          × (c.gross_balance ≡ pos 100)
          × (c.escrowed ≡ pos 30 -ℤ pos 25))
    × (¬ (pos 25 ≤ℤ pos 30) → (r2 ≡ err CashierError.plain) × (db2 ≡ sample))
deposit_again_example =
    deposit_again "ann" "old:0" account (pos 25) sample refl refl (omega arith) refl refl refl

-- More than the funds that are available.
abbrev too_much : Call
too_much = Call.request (Request.withdraw_req "ann" "k1" (pos 90))

serve-IsServed_example :
    IsServed false sample
      (alone no_faults too_much sample)
      (serve (postgres_cashier no_faults) too_much sample)
serve-IsServed_example = serve-IsServed no_faults too_much sample

abbrev nothing : Database
nothing = record {
  accounts = λ user. none;
  escrow_entries = λ i. none;
  idempotency_keys = λ key. false;
}

new_fake_cashier-Agrees : Agrees new_fake_cashier nothing
new_fake_cashier-Agrees = record {
  accounts = λ user. refl;
  entries = λ i. refl;
  keys = λ key. refl;
  covered = λ user. refl;
}

-- A deposit, its replay, an escrow, a withdrawal that is refused, and the release.
abbrev history : List Request
history =
    Request.deposit_req "ann" "k1" (pos 50)
    ∷ Request.deposit_req "ann" "k1" (pos 50)
    ∷ Request.escrow_req "ann" 3 (pos 20)
    ∷ Request.withdraw_req "ann" "k2" (pos 40)
    ∷ Request.release_req 3
    ∷ []

history_regular : are_regular history nothing ≡ true
unfolding are_regular is_regular run deposit with_idempotency upsert_account varchar fetch_account
    escrow escrow_entry update_versioned withdraw withdraw_tx release_escrow release_tx ◌+ℤ◌ ◌-ℤ◌
history_regular = refl

fake_outcomes-outcomes_example :
    fake_outcomes history new_fake_cashier ≡ map done (outcomes history nothing)
fake_outcomes-outcomes_example =
    fake_outcomes-outcomes history new_fake_cashier-Agrees history_regular
