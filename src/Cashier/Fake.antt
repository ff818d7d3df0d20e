-- ===== src/Cashier/Fake.antt =====
-- `FakeCashier` of cashier/internal/fake_cashier.go, the in-memory cashier. The mutex makes its methods
-- run one after another. `panics` is a read through the nil pointer of a user who is not there.
use secwager.Prelude.Int.{◌-ℤ◌, ℤ, pos, leb_ℤ, ltb_ℤ, ◌+ℤ◌}
use secwager.Prelude.{
  ℕ, Option, put, false, true, some, String, Bool, ◌<>◌, none, str_eq, if◌then◌else◌, update, ◌||◌,
}
use secwager.Cashier.Types.{CashierError, Escrow, Outcome, err, ok}

pub record FakeAccount : Type 0 where
  pub gross_balance : ℤ
  pub escrowed : ℤ

pub record FakeCashier : Type 0 where
  pub accounts : String → Option FakeAccount
  pub escrows : ℕ → Option Escrow
  pub idempotency_keys : String → Bool

pub data FakeOutcome : Type 0 where
  done : Outcome → FakeOutcome
  panics : FakeOutcome

abbrev pub FakeRun : Type 0
FakeRun = FakeOutcome × FakeCashier

abbrev pub new_fake_cashier : FakeCashier
new_fake_cashier = record {
  accounts = λ user. none;
  escrows = λ order_id. none;
  idempotency_keys = λ key. false;
}

abbrev pub fake_snapshot : FakeAccount → Bool → Outcome
fake_snapshot a replay =
    ok (record { gross_balance = a.gross_balance; escrowed = a.escrowed; is_replay = replay })

abbrev pub account_or_new : FakeCashier → String → FakeAccount
account_or_new f user = elim (f.accounts user) [
  | some a ↦ a
  | none ↦ record { gross_balance = pos 0; escrowed = pos 0 }
]

abbrev pub store_fake : FakeCashier → String → FakeAccount → FakeCashier
store_fake f user a = record f { accounts = put f.accounts user (some a) }

-- `getOrCreate`: the account, and the accounts with it in them.
abbrev pub get_or_create : FakeCashier → String → FakeAccount × FakeCashier
get_or_create f user = (account_or_new f user, store_fake f user (account_or_new f user))

abbrev pub write_key : FakeCashier → String → FakeCashier
write_key f key = record f { idempotency_keys = put f.idempotency_keys key true }

abbrev pub fake_fail : CashierError → FakeCashier → FakeRun
fake_fail e f = (done (err e), f)

-- The replay of a call that creates the account.
abbrev pub replay_created : FakeCashier → String → FakeRun
replay_created f user = let (a, f') = get_or_create f user in (done (fake_snapshot a true), f')

unfoldable pub fake_deposit : (user key : String) → ℤ → FakeCashier → FakeRun
fake_deposit user key amount f =
    if leb_ℤ amount (pos 0) || str_eq key ""
    then fake_fail CashierError.plain f
    else if f.idempotency_keys key
    then replay_created f user
    else let (a, f') = get_or_create f user in
      let a' : FakeAccount = record a { gross_balance = a.gross_balance +ℤ amount } in
      (done (fake_snapshot a' false), write_key (store_fake f' user a') key)

unfoldable pub fake_withdraw : (user key : String) → ℤ → FakeCashier → FakeRun
fake_withdraw user key amount f =
    if leb_ℤ amount (pos 0) || str_eq key ""
    then fake_fail CashierError.plain f
    else if f.idempotency_keys key
    then elim (f.accounts user) [ none ↦ (panics, f) | some a ↦ (done (fake_snapshot a true), f) ]
    else elim (f.accounts user) [
      | none ↦ fake_fail CashierError.unknown_user f
      | some a ↦
          if ltb_ℤ (a.gross_balance -ℤ a.escrowed) amount
          then fake_fail CashierError.insufficient_funds f
          else let a' : FakeAccount = record a { gross_balance = a.gross_balance -ℤ amount } in
            (done (fake_snapshot a' false), write_key (store_fake f user a') key)
    ]

unfoldable pub fake_escrow : String → ℕ → ℤ → FakeCashier → FakeRun
fake_escrow user order_id amount f =
    if leb_ℤ amount (pos 0) then fake_fail CashierError.plain f else elim (f.escrows order_id) [
      | some _ ↦ elim (f.accounts user) [
        | none ↦ (panics, f)
        | some a ↦ (done (fake_snapshot a false), f)
      ]
      | none ↦ elim (f.accounts user) [
        | none ↦ fake_fail CashierError.unknown_user f
        | some a ↦
            if ltb_ℤ (a.gross_balance -ℤ a.escrowed) amount
            then fake_fail CashierError.insufficient_funds f
            else let a' : FakeAccount = record a { escrowed = a.escrowed +ℤ amount } in
              (
                done (fake_snapshot a' false),
                record (store_fake f user a') {
                  escrows =
                      update f.escrows order_id (some (record { user_id = user; amount = amount }));
                },
              )
      ]
    ]

unfoldable pub fake_release : ℕ → FakeCashier → FakeRun
fake_release order_id f = elim (f.escrows order_id) [
  | none ↦ fake_fail CashierError.unknown_escrow f
  | some e ↦
      let f' : FakeCashier = record f { escrows = update f.escrows order_id none } in
      elim (f.accounts e.user_id) [
        | none ↦ (panics, f')
        | some a ↦
            let a' : FakeAccount = record a { escrowed = a.escrowed -ℤ e.amount } in
            (done (fake_snapshot a' false), store_fake f' e.user_id a')
      ]
]

unfoldable pub fake_check_available : String → FakeCashier → FakeOutcome
fake_check_available user f = elim (f.accounts user) [
  | none ↦ done (fake_snapshot (record { gross_balance = pos 0; escrowed = pos 0 }) false)
  | some a ↦ done (fake_snapshot a false)
]

unfoldable pub fake_deposit_escrowed : (user deposit_ref : String) → ℤ → FakeCashier → FakeRun
fake_deposit_escrowed user deposit_ref amount f =
    if leb_ℤ amount (pos 0)
    then fake_fail CashierError.plain f
    else if f.idempotency_keys deposit_ref
    then replay_created f user
    else let (a, f') = get_or_create f user in
      let a' : FakeAccount = record {
        gross_balance = a.gross_balance +ℤ amount;
        escrowed = a.escrowed +ℤ amount;
      } in
      (done (fake_snapshot a' false), write_key (store_fake f' user a') deposit_ref)

unfoldable pub fake_confirm : (user deposit_ref : String) → ℤ → FakeCashier → FakeRun
fake_confirm user deposit_ref amount f =
    if leb_ℤ amount (pos 0)
    then fake_fail CashierError.plain f
    else if f.idempotency_keys ("confirm:" <> deposit_ref)
    then replay_created f user
    else elim (f.accounts user) [
      | none ↦ fake_fail CashierError.unknown_user f
      | some a ↦
          let a' : FakeAccount = record a { escrowed = a.escrowed -ℤ amount } in
          (
            done (fake_snapshot a' false),
            write_key (store_fake f user a') ("confirm:" <> deposit_ref),
          )
    ]

unfoldable pub fake_cancel : (user deposit_ref : String) → ℤ → FakeCashier → FakeRun
fake_cancel user deposit_ref amount f =
    if leb_ℤ amount (pos 0)
    then fake_fail CashierError.plain f
    else if f.idempotency_keys ("cancel:" <> deposit_ref)
    then replay_created f user
    else elim (f.accounts user) [
      | none ↦ fake_fail CashierError.unknown_user f
      | some a ↦
          if ltb_ℤ a.escrowed amount
          then fake_fail CashierError.insufficient_funds f
          else let a' : FakeAccount = record {
            gross_balance = a.gross_balance -ℤ amount;
            escrowed = a.escrowed -ℤ amount;
          } in
            (
              done (fake_snapshot a' false),
              write_key (store_fake f user a') ("cancel:" <> deposit_ref),
            )
    ]
