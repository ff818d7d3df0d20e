-- ===== src/Cashier/Service.antt =====
-- `CashierService` of cashier/internal/service.go, over any `Cashier`: the interface of
-- cashier/internal/cashier.go, with the state that its methods work on.
use secwager.Prelude.{ℕ, if◌then◌else◌, String, ◌||◌, Bool, str_eq}
use secwager.Prelude.Int.{ℤ, pos, leb_ℤ}
use secwager.Cashier.Types.{Database, AccountSnapshot, CashierError, Outcome, ok, err, Faults}
use secwager.Cashier.Postgres.{
  deposit, withdraw, escrow, release_escrow, check_available, deposit_escrowed, confirm_deposit,
  cancel_deposit,
}
use secwager.Cashier.Requests.{Request}

pub record Cashier (S : Type 0) : Type 0 where
  pub deposit : (user key : String) → ℤ → S → Outcome × S
  pub withdraw : (user key : String) → ℤ → S → Outcome × S
  pub escrow : String → ℕ → ℤ → S → Outcome × S
  pub release_escrow : ℕ → S → Outcome × S
  pub check_available : String → S → Outcome × S
  pub deposit_escrowed : (user deposit_ref : String) → ℤ → S → Outcome × S
  pub confirm_deposit : (user deposit_ref : String) → ℤ → S → Outcome × S
  pub cancel_deposit : (user deposit_ref : String) → ℤ → S → Outcome × S

abbrev pub postgres_cashier : Faults → Cashier Database
postgres_cashier faults = record {
  deposit = deposit faults;
  withdraw = withdraw faults;
  escrow = escrow faults;
  release_escrow = release_escrow faults;
  check_available = λ user db. (check_available faults user db, db);
  deposit_escrowed = deposit_escrowed faults;
  confirm_deposit = confirm_deposit faults;
  cancel_deposit = cancel_deposit faults;
}

-- The gRPC codes that the service answers with.
pub data Code : Type 0 where
  invalid_argument failed_precondition not_found internal : Code

pub data Response : Type 0 where
  response : AccountSnapshot → Response
  status : Code → Response

abbrev pub to_grpc_error : CashierError → Code
to_grpc_error CashierError.insufficient_funds = Code.failed_precondition
to_grpc_error CashierError.unknown_user = Code.not_found
to_grpc_error CashierError.unknown_escrow = Code.not_found
to_grpc_error CashierError.plain = Code.internal

abbrev pub to_response : Outcome → Response
to_response (ok snap) = response snap
to_response (err e) = status (to_grpc_error e)

-- A request for the service; a check is one of them.
pub data Call : Type 0 where
  request : Request → Call
  check : String → Call

-- The service's own check of a request: the amount is positive, and the key is there.
abbrev pub bad_amount : ℤ → Bool
bad_amount amount = leb_ℤ amount (pos 0)

module _ {S : Type 0} (c : Cashier S) where
  abbrev answer : Outcome × S → Response × S
  answer (r, s) = (to_response r, s)

  abbrev guarded : Bool → S → Outcome × S → Response × S
  guarded bad s call = if bad then (status Code.invalid_argument, s) else answer call

  unfoldable pub serve : Call → S → Response × S
  serve (Call.request (Request.deposit_req user key amount)) s =
      guarded (bad_amount amount || str_eq key "") s (c.deposit user key amount s)
  serve (Call.request (Request.withdraw_req user key amount)) s =
      guarded (bad_amount amount || str_eq key "") s (c.withdraw user key amount s)
  serve (Call.request (Request.escrow_req user order_id amount)) s =
      guarded (bad_amount amount) s (c.escrow user order_id amount s)
  serve (Call.request (Request.release_req order_id)) s = answer (c.release_escrow order_id s)
  serve (Call.request (Request.deposit_escrowed_req user ref amount)) s =
      guarded (bad_amount amount || str_eq ref "") s (c.deposit_escrowed user ref amount s)
  serve (Call.request (Request.confirm_req user ref amount)) s =
      guarded (bad_amount amount || str_eq ref "") s (c.confirm_deposit user ref amount s)
  serve (Call.request (Request.cancel_req user ref amount)) s =
      guarded (bad_amount amount || str_eq ref "") s (c.cancel_deposit user ref amount s)
  serve (Call.check user) s = answer (c.check_available user s)
