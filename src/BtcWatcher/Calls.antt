-- ===== src/BtcWatcher/Calls.antt =====
-- The calls that btcwatcher/internal/watcher.go makes on the cashier, with their answers, and what the
-- table of btcwatcher/internal/txstore.go says of them.
use secwager.Prelude.Int.{ℤ}
use secwager.BtcWatcher.TxStore.{Table, Deposit, Row, select_deposits, has_key, deposit_of}
use secwager.BtcWatcher.Watcher.{CashierClient, deposit_ref}
use mathlib.Core.List.{Memᴰ}
use secwager.Prelude.{
  ℕ, true, List, All, ◌≡◌, refl, [], false, str_eq_refl, ap, arith, String, ==_iff, inr, ◌∷◌, any,
  str_eq_iff, inl, Bool, Bool-cases, All-map, All-both,
}

pub data CashierCall : Type 0 where
  escrow_call confirm_call cancel_call :
      (user_id : String) (satoshis : ℤ) (ref : String) → CashierCall

-- The latest call stands first.
abbrev pub CallLog : Type 0
CallLog = List (CashierCall × Bool)

-- A cashier that answers as it likes, and whose state is the log.
unfoldable pub recording : (CashierCall → CallLog → Bool) → CashierClient CallLog
recording answer = record {
  deposit_escrowed = λ user_id satoshis ref log.
      let c = CashierCall.escrow_call user_id satoshis ref in
      (answer c log, (c, answer c log) ∷ log);
  confirm_deposit = λ user_id satoshis ref log.
      let c = CashierCall.confirm_call user_id satoshis ref in
      (answer c log, (c, answer c log) ∷ log);
  cancel_deposit = λ user_id satoshis ref log.
      let c = CashierCall.cancel_call user_id satoshis ref in
      (answer c log, (c, answer c log) ∷ log);
}

-- The cashier has agreed to take the deposit in escrow.
abbrev pub IsAgreed : String → ℤ → String → CallLog → Type 0
IsAgreed user_id satoshis ref log = Memᴰ (CashierCall.escrow_call user_id satoshis ref, true) log

-- A call to confirm or to cancel comes after an agreed call to escrow the same amount of the same user
-- under the same reference.
abbrev pub AreOrdered : CallLog → Type 0
AreOrdered [] = Unit
AreOrdered ((CashierCall.escrow_call user_id satoshis ref, agreed) ∷ log) = AreOrdered log
AreOrdered ((CashierCall.confirm_call user_id satoshis ref, agreed) ∷ log) =
    IsAgreed user_id satoshis ref log × AreOrdered log
AreOrdered ((CashierCall.cancel_call user_id satoshis ref, agreed) ∷ log) =
    IsAgreed user_id satoshis ref log × AreOrdered log

abbrev pub HaveKeys : Table → Type 0
HaveKeys [] = Unit
HaveKeys (r ∷ t) = (any (has_key r.txid r.vout) t ≡ false) × HaveKeys t

-- A row in escrow has been agreed to.
abbrev pub IsCovered : CallLog → Row → Type 0
IsCovered log r = r.escrowed ≡ true → IsAgreed r.user_id r.satoshis (deposit_ref r.txid r.vout) log

-- The rows with the deposit's key are of its user and its amount.
abbrev pub Matches : Deposit → Table → Type 0
Matches d = All (λ r.
    has_key d.txid d.vout r ≡ true
    → (r.user_id ≡ d.user_id) × (r.satoshis ≡ d.satoshis) × (r.txid ≡ d.txid) × (r.vout ≡ d.vout))

has_key_lem :
    (txid : String) (vout : ℕ) (r : Row)
    → has_key txid vout r ≡ true
    → (r.txid ≡ txid) × (r.vout ≡ vout)
has_key_lem txid vout r e =
    ((str_eq_iff r.txid txid).0 (ground (arith, e)), (==_iff r.vout vout).0 (ground (arith, e)))

nobody-Matches : (d : Deposit) (t : Table) → any (has_key d.txid d.vout) t ≡ false → Matches d t
nobody-Matches d [] h = tt
nobody-Matches d (r ∷ t) h = (λ e. ground (arith, h, e), nobody-Matches d t (ground (arith, h)))

module _ (p : Row → Bool) where
  select-known : (t : Table) → All (λ d. any (has_key d.txid d.vout) t ≡ true) (select_deposits p t)
  select-known [] = tt
  select-known (r ∷ t) =
      let rest : All (λ d. any (has_key d.txid d.vout) (r ∷ t) ≡ true) (select_deposits p t) =
        All-map (λ d h. ground (arith, h)) (select_deposits p t) (select-known t) in
      elim (Bool-cases (p r)) [
        | inr skipped ↦ rw skipped rest
        | inl taken ↦ rw taken (ground (arith, str_eq_refl r.txid), rest)
      ]

  more-Matches :
      (r : Row) (t : Table) (d : Deposit)
      → any (has_key r.txid r.vout) t ≡ false
      → any (has_key d.txid d.vout) t ≡ true
      → Matches d t
      → Matches d (r ∷ t)
  more-Matches r t d alone known h = (
    λ e.
        let (txid, vout) = has_key_lem d.txid d.vout r e in
        absurd (
          ground (
            arith,
            alone,
            known,
            ap (λ s. any (has_key s r.vout) t) txid,
            ap (λ n. any (has_key d.txid n) t) vout,
          )),
    h,
  )

  pub select-Matches : (t : Table) → HaveKeys t → All (λ d. Matches d t) (select_deposits p t)
  select-Matches [] h = tt
  select-Matches (r ∷ t) (alone, h) =
      let rest : All (λ d. Matches d (r ∷ t)) (select_deposits p t) =
        All-map (λ d k. more-Matches r t d alone k.0 k.1) (select_deposits p t)
          (All-both _ (λ d. Matches d t) (select_deposits p t) (select-known t)
            (select-Matches t h)) in
      elim (Bool-cases (p r)) [
        | inr skipped ↦ rw skipped rest
        | inl taken ↦
            rw taken ((λ e. (refl, refl, refl, refl), nobody-Matches (deposit_of r) t alone), rest)
      ]
