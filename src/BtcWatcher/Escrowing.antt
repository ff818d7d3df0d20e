-- ===== src/BtcWatcher/Escrowing.antt =====
-- What the handlers of btcwatcher/internal/watcher.go achieve where the cashier agrees to every call
-- and the database answers.
use mathlib.Core.Path.{subst, sym}
use secwager.Prelude.{
  ℕ, Bool, any, All, [], List, ◌∷◌, true, false, String, ◌≡◌, arith, refl, ◌+◌, not, leb, ◌&&◌,
  str_eq_refl, Bool-cases, inl, inr, if◌then◌else◌,
}
use secwager.Prelude.Int.{ℤ}
use secwager.BtcWatcher.TxStore.{
  Row, Table, Deposit, has_key, list_not_escrowed, mark_escrowed, list_ready_to_confirm,
  mark_confirmed, deposit_of, is_none, select_deposits,
}
use secwager.BtcWatcher.Watcher.{
  CashierClient, Config, TxFaults, Watched, call_rows, retry_escrows, check_confirmations,
  deposit_ref,
}

abbrev pub no_tx_faults : TxFaults
no_tx_faults = record {
  insert_fails = λ _ _. false;
  list_fails = false;
  mark_fails = λ _ _. false;
  soft_fails = false;
  hard_fails = false;
}

-- The row is among the deposits still to be called on.
abbrev listed : List Deposit → Row → Bool
listed ds r = any (λ d. has_key d.txid d.vout r) ds

-- A mark that takes a row out of the list that `p` selects, and puts none in.
record Settles (p : Row → Bool) (mark : String → ℕ → Table → Table) : Type 0 where
  settles :
      (d : Deposit) (ds : List Deposit) (t : Table)
      → All (λ r. p r ≡ true → listed (d ∷ ds) r ≡ true) t
      → All (λ r. p r ≡ true → listed ds r ≡ true) (mark d.txid d.vout t)

none_left :
    (p : Row → Bool) (t : Table) → All (λ r. p r ≡ true → false ≡ true) t → All (λ r. p r ≡ false) t
none_left p [] h = tt
none_left p (r ∷ t) h = ground (arith, h.0, none_left p t h.1)

listed_more :
    (p : Row → Bool) (d : Deposit) (ds : List Deposit) (t : Table)
    → All (λ r. p r ≡ true → listed ds r ≡ true) t
    → All (λ r. p r ≡ true → listed (d ∷ ds) r ≡ true) t
listed_more p d ds [] h = tt
listed_more p d ds (r ∷ t) h = (λ e. ground (arith, h.0 e), listed_more p d ds t h.1)

selected :
    (p : Row → Bool) (r : Row) (t : Table)
    → select_deposits p (r ∷ t)
      ≡ (if p r then deposit_of r ∷ select_deposits p t else select_deposits p t)
selected p r t = ground arith

selected_listed :
    (p : Row → Bool) (t : Table) → All (λ r. p r ≡ true → listed (select_deposits p t) r ≡ true) t
selected_listed p [] = tt
selected_listed p (r ∷ t) =
    let rest = selected_listed p t in
    elim (Bool-cases (p r)) [
      | inl e ↦
          let now : select_deposits p (r ∷ t) ≡ deposit_of r ∷ select_deposits p t =
            ground (arith, selected p r t) in
          subst (λ ds. All (λ r'. p r' ≡ true → listed ds r' ≡ true) (r ∷ t)) (sym now)
            (
              λ q. ground (arith, str_eq_refl r.txid),
              listed_more p (deposit_of r) (select_deposits p t) t rest,
            )
      | inr e ↦
          let now : select_deposits p (r ∷ t) ≡ select_deposits p t =
            ground (arith, selected p r t) in
          subst (λ ds. All (λ r'. p r' ≡ true → listed ds r' ≡ true) (r ∷ t)) (sym now)
            (λ q. ground (arith, q), rest)
    ]

none_selected : (p : Row → Bool) (t : Table) → All (λ r. p r ≡ false) t → select_deposits p t ≡ []
none_selected p [] h = refl
none_selected p (r ∷ t) h = ground (arith, none_selected p t h.1)

module _ {S : Type 0} (client : CashierClient S) (p : Row → Bool) where
  calls_settle :
      (call : Deposit → String → S → Bool × S) (mark : String → ℕ → Table → Table)
      → Settles p mark
      → ((d : Deposit) (ref : String) (s : S) → (call d ref s).0 ≡ true)
      → (ds : List Deposit) (w : Watched S) → All (λ r. p r ≡ true → listed ds r ≡ true) w.0
      → All (λ r. p r ≡ false) (call_rows client no_tx_faults call mark ds w).0
  unfolding call_rows
  calls_settle call mark m agrees [] (t, s) h = none_left p t h
  calls_settle call mark m agrees (d ∷ ds) (t, s) h = ground (
    arith,
    agrees d (deposit_ref d.txid d.vout) s,
    calls_settle call mark m agrees ds
        (mark d.txid d.vout t, (call d (deposit_ref d.txid d.vout) s).1) (m.settles d ds t h),
  )

abbrev waiting : Row → Bool
waiting r = not r.escrowed && is_none r.reorged_at

mark_escrowed_settles :
    (d : Deposit) (ds : List Deposit) (t : Table)
    → All (λ r. waiting r ≡ true → listed (d ∷ ds) r ≡ true) t
    → All (λ r. waiting r ≡ true → listed ds r ≡ true) (mark_escrowed d.txid d.vout t)
unfolding mark_escrowed
mark_escrowed_settles d ds [] h = tt
mark_escrowed_settles d ds (r ∷ t) h = ground (arith, mark_escrowed_settles d ds t h.1)

mark_escrowed-Settles : Settles waiting mark_escrowed
unfolding mark_escrowed
mark_escrowed-Settles = record { settles = mark_escrowed_settles }

abbrev deep : (min_depth current_height : ℕ) → Row → Bool
deep min_depth current_height r =
    r.escrowed
    && not r.confirmed
    && is_none r.reorged_at
    && leb (r.seen_at_height + min_depth) current_height

mark_confirmed_settles :
    (m c : ℕ) (d : Deposit) (ds : List Deposit) (t : Table)
    → All (λ r. deep m c r ≡ true → listed (d ∷ ds) r ≡ true) t
    → All (λ r. deep m c r ≡ true → listed ds r ≡ true) (mark_confirmed d.txid d.vout t)
unfolding mark_confirmed
mark_confirmed_settles m c d ds [] h = tt
mark_confirmed_settles m c d ds (r ∷ t) h = ground (arith, mark_confirmed_settles m c d ds t h.1)

mark_confirmed-Settles : (m c : ℕ) → Settles (deep m c) mark_confirmed
unfolding mark_confirmed
mark_confirmed-Settles m c = record { settles = mark_confirmed_settles m c }

-- With a cashier that agrees to every `DepositEscrowed`, and a database that answers, no deposit is
-- left to be put in escrow after one round of `retryEscrows`.
pub retry_escrows_lem :
    {S : Type 0} (client : CashierClient S)
    → ((user : String) (amount : ℤ) (ref : String) (s : S)
        → (client.deposit_escrowed user amount ref s).0 ≡ true)
    → (w : Watched S) → list_not_escrowed (retry_escrows client no_tx_faults w).0 ≡ []
unfolding retry_escrows list_not_escrowed
retry_escrows_lem client agrees (t, s) = none_selected waiting _ (
    calls_settle client waiting (λ d ref. client.deposit_escrowed d.user_id d.satoshis ref)
      mark_escrowed mark_escrowed-Settles (λ d ref s. agrees d.user_id d.satoshis ref s) _ (t, s)
      (selected_listed waiting t))

-- With a cashier that agrees to every `ConfirmDeposit`, and a database that answers, no deposit that
-- is deep enough is left to be confirmed after one round of `checkConfirmations`.
check_confirmations_lem :
    {S : Type 0} (client : CashierClient S) (cfg : Config) (height : ℕ)
    → ((user : String) (amount : ℤ) (ref : String) (s : S)
        → (client.confirm_deposit user amount ref s).0 ≡ true)
    → (w : Watched S)
    → list_ready_to_confirm cfg.confirmations height
        (check_confirmations client no_tx_faults cfg height w).0
      ≡ []
unfolding check_confirmations list_ready_to_confirm
check_confirmations_lem client cfg height agrees (t, s) =
    none_selected (deep cfg.confirmations height) _ (
      calls_settle client (deep cfg.confirmations height)
        (λ d ref. client.confirm_deposit d.user_id d.satoshis ref) mark_confirmed
        (mark_confirmed-Settles cfg.confirmations height)
        (λ d ref s. agrees d.user_id d.satoshis ref s) _ (t, s)
        (selected_listed (deep cfg.confirmations height) t))
