-- ===== src/Cashier/Agreement/Escrows.antt =====
-- `Escrow` and `ReleaseEscrow`, in cashier/internal/fake_cashier.go and in
-- cashier/internal/postgres_cashier.go.
use secwager.Cashier.Funds.{rewritten}
use secwager.Cashier.Postgres.{escrow, release_escrow, escrow_entry, release_tx, check_available}
use secwager.Cashier.Database.{row_ok, update_versioned}
use secwager.Cashier.Agreement.{
  Agrees, is_regular, Same, stays_as, fake_with, fake_gone, fake_known, row_known, stores_as,
}
use secwager.Cashier.Fake.{FakeCashier, fake_release, fake_escrow}
use secwager.Prelude.Int.{◌-ℤ◌, ◌+ℤ◌, ℤ, leb_ℤ, pos, ltb_ℤ}
use secwager.Prelude.{
  ℕ, true, some, inl, inr, refl, Option-cases, false, none, Bool-cases, arith, ◌≡◌, String, update,
  put,
}
use secwager.Cashier.Types.{
  CashierError, Database, Account, no_faults, err, ok, snapshot_of, Escrow,
}
use secwager.Cashier.Requests.{Request}

held_row :
    (a : Account) (amount : ℤ)
    → row_ok a ≡ true
    → leb_ℤ amount (pos 0) ≡ false
    → ltb_ℤ (a.gross_balance -ℤ a.escrowed) amount ≡ false
    → row_ok (rewritten a a.gross_balance (a.escrowed +ℤ amount)) ≡ true
unfolding ◌-ℤ◌ ◌+ℤ◌
held_row a amount row positive enough = ground arith

freed_row :
    (a : Account) (amount : ℤ)
    → row_ok a ≡ true
    → leb_ℤ (pos 0) amount ≡ true
    → leb_ℤ amount a.escrowed ≡ true
    → row_ok (rewritten a a.gross_balance (a.escrowed -ℤ amount)) ≡ true
unfolding ◌-ℤ◌
freed_row a amount row positive enough = ground arith

module _ {f : FakeCashier} {db : Database} (agrees : Agrees f db) where
  pub escrow-Same :
      (user : String) (order_id : ℕ) (amount : ℤ)
      → is_regular (Request.escrow_req user order_id amount) db ≡ true
      → Same (fake_escrow user order_id amount f) (escrow no_faults user order_id amount db)
  unfolding is_regular fake_escrow escrow escrow_entry check_available update_versioned
  escrow-Same user order_id amount regular = elim (Bool-cases (leb_ℤ amount (pos 0))) [
    | inl bad ↦ stays_as agrees (err CashierError.plain) (ground arith) (ground arith)
    | inr fine ↦ elim (Option-cases (db.accounts user)) [
      | inl gone ↦
          stays_as agrees (err CashierError.unknown_user)
            (ground (arith, agrees.entries order_id, fake_gone agrees user gone, regular))
            (ground arith)
      | inr (a, known) ↦
          let a' = rewritten a a.gross_balance (a.escrowed +ℤ amount) in
          elim (Bool-cases (ltb_ℤ (a.gross_balance -ℤ a.escrowed) amount)) [
            | inl short ↦
                stays_as agrees (err CashierError.insufficient_funds)
                  (ground (arith, agrees.entries order_id, fake_known agrees user a known, regular))
                  (ground arith)
            | inr enough ↦
                let row = held_row a amount (row_known agrees user a known) fine enough in
                elim (Option-cases (db.escrow_entries order_id)) [
                  | inr (e, there) ↦
                      stays_as agrees (ok (snapshot_of a false))
                        (ground (arith, agrees.entries order_id, fake_known agrees user a known))
                        (ground (arith, row))
                  | inl fresh ↦
                      let entry : Escrow = record { user_id = user; amount = amount } in
                      let b = fake_with a'.gross_balance a'.escrowed in
                      stores_as agrees user b a' (ok (snapshot_of a' false))
                        (record f {
                          accounts = put f.accounts user (some b);
                          escrows = update f.escrows order_id (some entry);
                        })
                        (record db {
                          accounts = put db.accounts user (some a');
                          escrow_entries = update db.escrow_entries order_id (some entry);
                        })
                        (ground (arith, agrees.entries order_id, fake_known agrees user a known))
                        (ground (arith, row)) (refl, refl) row (λ u. refl) (λ u. refl)
                        (λ i. ground (arith, agrees.entries i)) agrees.keys
                ]
          ]
    ]
  ]

  pub release-Same :
      (order_id : ℕ)
      → is_regular (Request.release_req order_id) db ≡ true
      → Same (fake_release order_id f) (release_escrow no_faults order_id db)
  unfolding is_regular fake_release release_escrow release_tx update_versioned
  release-Same order_id regular = elim (Option-cases (db.escrow_entries order_id)) [
    | inl gone ↦
        stays_as agrees (err CashierError.unknown_escrow) (ground (arith, agrees.entries order_id))
          (ground arith)
    | inr (e, there) ↦ elim (Option-cases (db.accounts e.user_id)) [
      | inl gone ↦ ground (arith, regular)
      | inr (a, known) ↦
          let a' = rewritten a a.gross_balance (a.escrowed -ℤ e.amount) in
          let b = fake_with a'.gross_balance a'.escrowed in
          let row =
            freed_row a e.amount (row_known agrees e.user_id a known) (ground (arith, regular))
              (ground (arith, regular)) in
          stores_as agrees e.user_id b a' (ok (snapshot_of a' false))
            (record f {
              accounts = put f.accounts e.user_id (some b);
              escrows = update f.escrows order_id none;
            })
            (record db {
              accounts = put db.accounts e.user_id (some a');
              escrow_entries = update db.escrow_entries order_id none;
            })
            (ground (arith, agrees.entries order_id, fake_known agrees e.user_id a known))
            (ground (arith, row)) (refl, refl) row (λ u. refl) (λ u. refl)
            (λ i. ground (arith, agrees.entries i)) agrees.keys
    ]
  ]
