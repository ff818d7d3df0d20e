-- ===== src/BtcWatcher/Calling.antt =====
-- The loops of btcwatcher/internal/watcher.go that call the cashier on rows of the table.
use secwager.BtcWatcher.Ordering.{
  IsInOrder, IsCovered-more, filter-HaveKeys, if-either, update_where-HaveKeys, update_where-All,
}
use secwager.BtcWatcher.Watcher.{TxFaults, call_rows, deposit_ref, CashierClient}
use secwager.BtcWatcher.Calls.{
  CashierCall, CallLog, IsAgreed, recording, IsCovered, HaveKeys, Matches, AreOrdered,
}
use secwager.BtcWatcher.TxStore.{
  Deposit, Row, has_key, mark_escrowed, Table, mark_confirmed, mark_cancelled,
}
use mathlib.Core.List.{Memᴰ}
use mathlib.Core.Path.{sym, subst}
use secwager.Prelude.{
  All-map, inl, Bool-cases, not, [], ◌≡◌, List, ◌&&◌, if◌then◌else◌, ◌∷◌, All-filter, All, inr,
  true, Bool, refl, ap, arith,
}

mark_escrowed-Matches :
    (d e : Deposit) (t : Table) → Matches e t → Matches e (mark_escrowed d.txid d.vout t)
unfolding mark_escrowed
mark_escrowed-Matches d e t h =
    update_where-All (has_key d.txid d.vout) _ (λ r. (refl, refl, refl, refl)) _ t (λ r e k. k) h

-- A mark keeps keys and the escrow of rows; one that puts rows in escrow has been agreed to.
escrowed_row :
    (d : Deposit) (log : CallLog) (r : Row)
    → (has_key d.txid d.vout r ≡ true
        → (r.user_id ≡ d.user_id)
          × (r.satoshis ≡ d.satoshis)
          × (r.txid ≡ d.txid)
          × (r.vout ≡ d.vout))
    → IsAgreed d.user_id d.satoshis (deposit_ref d.txid d.vout) log
    → has_key d.txid d.vout r ≡ true
    → IsCovered log (record r { escrowed = true })
escrowed_row d log r matches agreed e now =
    let (user, amount, txid, vout) = matches e in
    subst (λ u. IsAgreed u r.satoshis (deposit_ref r.txid r.vout) log) (sym user)
      (subst (λ a. IsAgreed d.user_id a (deposit_ref r.txid r.vout) log) (sym amount)
        (subst (λ i. IsAgreed d.user_id d.satoshis (deposit_ref i r.vout) log) (sym txid)
          (subst (λ v. IsAgreed d.user_id d.satoshis (deposit_ref d.txid v) log) (sym vout)
            agreed)))

module _ (d : Deposit) (log : CallLog)
    (agreed : IsAgreed d.user_id d.satoshis (deposit_ref d.txid d.vout) log) where
  mark_escrowed-covers :
      (t : Table)
      → Matches d t
      → All (IsCovered log) t
      → All (IsCovered log) (mark_escrowed d.txid d.vout t)
  unfolding mark_escrowed
  mark_escrowed-covers [] matches h = tt
  mark_escrowed-covers (r ∷ t) (match, matches) (here, h) =
      let rest = mark_escrowed-covers t matches h in
      elim (Bool-cases (has_key d.txid d.vout r)) [
        | inr miss ↦ rw (miss, mark_escrowed) (here, rest)
        | inl hit ↦ rw (hit, mark_escrowed) (escrowed_row d log r match agreed hit, rest)
      ]

  -- A call on a deposit that is agreed to, and the table as it was or with the row marked.
  module _ (t : Table) (keys : HaveKeys t) (covered : All (IsCovered log) t) where
    escrow_marked-IsInOrder :
        AreOrdered log → Matches d t → IsInOrder (mark_escrowed d.txid d.vout t, log)
    unfolding mark_escrowed
    escrow_marked-IsInOrder ordered matches = (
      update_where-HaveKeys (has_key d.txid d.vout) _ (λ r. (refl, refl, refl, refl)) t keys,
      mark_escrowed-covers t matches covered,
      ordered,
    )

    confirm_marked-IsInOrder : AreOrdered log → IsInOrder (mark_confirmed d.txid d.vout t, log)
    unfolding mark_confirmed
    confirm_marked-IsInOrder ordered = (
      update_where-HaveKeys (has_key d.txid d.vout) _ (λ r. (refl, refl, refl, refl)) t keys,
      update_where-All (has_key d.txid d.vout) _ (λ r. (refl, refl, refl, refl)) (IsCovered log) t
          (λ r e k. k) covered,
      ordered,
    )

    cancel_marked-IsInOrder : AreOrdered log → IsInOrder (mark_cancelled d.txid d.vout t, log)
    unfolding mark_cancelled
    cancel_marked-IsInOrder ordered =
        (filter-HaveKeys _ t keys, All-filter (IsCovered log) _ t covered, ordered)

module _ (answer : CashierCall → CallLog → Bool) (faults : TxFaults) where
  abbrev client : CashierClient CallLog
  client = recording answer

  -- The deposits that are still to be called on match their rows.
  pub retry_calls-IsInOrder :
      (ds : List Deposit) (t : Table) (log : CallLog)
      → IsInOrder (t, log)
      → All (λ d. Matches d t) ds
      → IsInOrder (
          call_rows client faults
            (λ d ref. client.deposit_escrowed d.user_id d.satoshis ref)
            mark_escrowed
            ds
            (t, log))
  unfolding call_rows recording
  retry_calls-IsInOrder [] t log h matches = h
  retry_calls-IsInOrder (d ∷ ds) t log (keys, covered, ordered) (match, matches) =
      let c = CashierCall.escrow_call d.user_id d.satoshis (deposit_ref d.txid d.vout) in
      let log' : CallLog = (c, answer c log) ∷ log in
      let covered' = IsCovered-more (c, answer c log) log t covered in
      let b = answer c log && not (faults.mark_fails d.txid d.vout) in
      retry_calls-IsInOrder ds (if b then mark_escrowed d.txid d.vout t else t) log'
        (if-either (λ u. IsInOrder (u, log')) b (mark_escrowed d.txid d.vout t) t
          (λ e.
            escrow_marked-IsInOrder d log' (Memᴰ.head (ap (λ v. (c, v)) (sym (ground (arith, e)))))
              t keys covered' ordered match)
          (keys, covered', ordered))
        (if-either (λ u. All (λ e. Matches e u) ds) b (mark_escrowed d.txid d.vout t) t
          (λ e. All-map (λ e k. mark_escrowed-Matches d e t k) ds matches) matches)

  -- The deposits that are still to be called on have been agreed to.
  abbrev pub AreAgreed : CallLog → List Deposit → Type 0
  AreAgreed log = All (λ d. IsAgreed d.user_id d.satoshis (deposit_ref d.txid d.vout) log)

  pub confirm_calls-IsInOrder :
      (ds : List Deposit) (t : Table) (log : CallLog)
      → IsInOrder (t, log)
      → AreAgreed log ds
      → IsInOrder (
          call_rows client faults
            (λ d ref. client.confirm_deposit d.user_id d.satoshis ref)
            mark_confirmed
            ds
            (t, log))
  unfolding call_rows recording
  confirm_calls-IsInOrder [] t log h agreed = h
  confirm_calls-IsInOrder (d ∷ ds) t log (keys, covered, ordered) (agreed, rest) =
      let c = CashierCall.confirm_call d.user_id d.satoshis (deposit_ref d.txid d.vout) in
      let log' : CallLog = (c, answer c log) ∷ log in
      let covered' = IsCovered-more (c, answer c log) log t covered in
      let b = answer c log && not (faults.mark_fails d.txid d.vout) in
      confirm_calls-IsInOrder ds (if b then mark_confirmed d.txid d.vout t else t) log'
        (if-either (λ u. IsInOrder (u, log')) b (mark_confirmed d.txid d.vout t) t
          (λ e.
            confirm_marked-IsInOrder d log' (Memᴰ.tail agreed) t keys covered' (agreed, ordered))
          (keys, covered', (agreed, ordered)))
        (All-map (λ e k. Memᴰ.tail k) ds rest)

  pub cancel_calls-IsInOrder :
      (ds : List Deposit) (t : Table) (log : CallLog)
      → IsInOrder (t, log)
      → AreAgreed log ds
      → IsInOrder (
          call_rows client faults
            (λ d ref. client.cancel_deposit d.user_id d.satoshis ref)
            mark_cancelled
            ds
            (t, log))
  unfolding call_rows recording
  cancel_calls-IsInOrder [] t log h agreed = h
  cancel_calls-IsInOrder (d ∷ ds) t log (keys, covered, ordered) (agreed, rest) =
      let c = CashierCall.cancel_call d.user_id d.satoshis (deposit_ref d.txid d.vout) in
      let log' : CallLog = (c, answer c log) ∷ log in
      let covered' = IsCovered-more (c, answer c log) log t covered in
      let b = answer c log && not (faults.mark_fails d.txid d.vout) in
      cancel_calls-IsInOrder ds (if b then mark_cancelled d.txid d.vout t else t) log'
        (if-either (λ u. IsInOrder (u, log')) b (mark_cancelled d.txid d.vout t) t
          (λ e. cancel_marked-IsInOrder d log' (Memᴰ.tail agreed) t keys covered' (agreed, ordered))
          (keys, covered', (agreed, ordered)))
        (All-map (λ e k. Memᴰ.tail k) ds rest)
