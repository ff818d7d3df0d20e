-- ===== src/Cashier/Types.antt =====
-- The types of cashier/internal/cashier.go, and the rows of cashier/db/migrations.
use secwager.Prelude.{ℕ, Option, Bool, false, String}
use secwager.Prelude.Int.{ℤ}

pub record AccountSnapshot : Type 0 where
  pub gross_balance : ℤ
  pub escrowed : ℤ
  pub is_replay : Bool

-- The three error types of the package, and a plain error (`fmt.Errorf`), of which the gRPC layer
-- tells no more apart.
pub data CashierError : Type 0 where
  insufficient_funds unknown_user unknown_escrow plain : CashierError

pub data Outcome : Type 0 where
  ok : AccountSnapshot → Outcome
  err : CashierError → Outcome

-- A row of `accounts`.
pub record Account : Type 0 where
  pub gross_balance : ℤ
  pub escrowed : ℤ
  pub version : ℕ

-- A row of `escrow_entries`.
pub record Escrow : Type 0 where
  pub user_id : String
  pub amount : ℤ

-- The three tables, by their primary keys.
pub record Database : Type 0 where
  pub accounts : String → Option Account
  pub escrow_entries : ℕ → Option Escrow
  pub idempotency_keys : String → Bool

abbrev pub snapshot_of : Account → Bool → AccountSnapshot
snapshot_of a replay = record {
  gross_balance = a.gross_balance;
  escrowed = a.escrowed;
  is_replay = replay;
}

-- The calls of the database that may fail on their own, by a lost connection or the like. Which of
-- them do in one request is a parameter of the model.
pub data DbCall : Type 0 where
  begin_tx insert_key replay_read write_account select_account insert_escrow read_escrow : DbCall
  delete_escrow fetch_snapshot commit rollback check_read : DbCall

abbrev pub Faults : Type 0
Faults = DbCall → Bool

abbrev pub no_faults : Faults
no_faults _ = false
