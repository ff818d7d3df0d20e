-- ===== src/BtcWatcher/Sessions.antt =====
-- Any rounds of the loop of btcwatcher/internal/watcher.go, on a node that may gain and lose the lead.
use secwager.Prelude.Int.{leb_ℤ, pos}
use secwager.BtcWatcher.Ordering.{IsInOrder, if-either}
use secwager.BtcWatcher.Calling.{
  AreAgreed, cancel_calls-IsInOrder, retry_calls-IsInOrder, confirm_calls-IsInOrder,
}
use secwager.BtcWatcher.Calls.{CashierCall, CallLog, HaveKeys, IsCovered, recording, select-Matches}
use secwager.BtcWatcher.TxStore.{
  upsert, Deposit, Table, Row, has_key, new_row, list_not_escrowed, list_reorged_escrowed,
  list_ready_to_confirm, insert_deposit, is_none, select_deposits,
}
use mathlib.Core.Path.{sym}
use secwager.BtcWatcher.Watcher.{
  TxFaults, insert_all, cancel_reorged_escrows, retry_escrows, check_confirmations, Config,
}
use secwager.Prelude.{
  ℕ, All, arith, ◌≡◌, true, refl, false, List, inl, Bool-cases, ◌==◌, inr, Bool, ◌&&◌, str_eq_iff,
  String, any, ◌∷◌, str_eq, [],
}

key_sym :
    (txid other : String) (vout n : ℕ)
    → (str_eq txid other && vout == n) ≡ false
    → (str_eq other txid && n == vout) ≡ false
key_sym txid other vout n e = elim (Bool-cases (str_eq other txid)) [
  | inr apart ↦ rw apart refl
  | inl same ↦
      let back : str_eq txid other ≡ true =
        (str_eq_iff txid other).1 (sym ((str_eq_iff other txid).0 same)) in
      rw same (ground (arith, e, back))
]

upsert-apart :
    (d : Deposit) (txid : String) (vout : ℕ) (t : Table)
    → has_key txid vout (new_row d) ≡ false
    → any (has_key txid vout) t ≡ false
    → any (has_key txid vout) (upsert d t) ≡ false
unfolding upsert
upsert-apart d txid vout [] new h = rw new refl
upsert-apart d txid vout (r ∷ t) new h = elim (Bool-cases (has_key d.txid d.vout r)) [
  | inr other ↦
      rw (upsert, other, upsert-apart d txid vout t new (ground (arith, h))) (ground (arith, h))
  | inl old ↦ elim (Bool-cases (is_none r.reorged_at)) [
    | inl live ↦ rw (upsert, old, live) h
    | inr reorged ↦ rw (upsert, old, reorged) h
  ]
]

upsert-HaveKeys : (d : Deposit) (t : Table) → HaveKeys t → HaveKeys (upsert d t)
unfolding upsert
upsert-HaveKeys d [] h = (refl, tt)
upsert-HaveKeys d (r ∷ t) (alone, h) = elim (Bool-cases (has_key d.txid d.vout r)) [
  | inr other ↦
      rw (upsert, other)
        (
          upsert-apart d r.txid r.vout t (key_sym r.txid d.txid r.vout d.vout other) alone,
          upsert-HaveKeys d t h,
        )
  | inl old ↦ elim (Bool-cases (is_none r.reorged_at)) [
    | inl live ↦ rw (upsert, old, live) (alone, h)
    | inr reorged ↦ rw (upsert, old, reorged) (alone, h)
  ]
]

upsert-covers :
    (d : Deposit) (log : CallLog) (t : Table)
    → All (IsCovered log) t
    → All (IsCovered log) (upsert d t)
unfolding upsert
upsert-covers d log [] h = ((λ e. absurd (ground (arith, e))), tt)
upsert-covers d log (r ∷ t) (here, h) = elim (Bool-cases (has_key d.txid d.vout r)) [
  | inr other ↦ rw (upsert, other) (here, upsert-covers d log t h)
  | inl old ↦ elim (Bool-cases (is_none r.reorged_at)) [
    | inl live ↦ rw (upsert, old, live) (here, h)
    | inr reorged ↦ rw (upsert, old, reorged) (here, h)
  ]
]

selected-AreAgreed :
    (answer : CashierCall → CallLog → Bool) (faults : TxFaults) (p : Row → Bool) (log : CallLog)
    (t : Table)
    → ((r : Row) → p r ≡ true → r.escrowed ≡ true)
    → All (IsCovered log) t
    → AreAgreed answer faults log (select_deposits p t)
selected-AreAgreed answer faults p log [] escrowed h = tt
selected-AreAgreed answer faults p log (r ∷ t) escrowed (here, h) =
    let rest = selected-AreAgreed answer faults p log t escrowed h in
    elim (Bool-cases (p r)) [
      | inr skipped ↦ rw skipped rest
      | inl taken ↦ rw taken (here (escrowed r taken), rest)
    ]

module _ (answer : CashierCall → CallLog → Bool) (faults : TxFaults) where
  pub insert_all-IsInOrder :
      (ds : List Deposit) (t : Table) (log : CallLog)
      → IsInOrder (t, log)
      → IsInOrder (insert_all (recording answer) faults ds t, log)
  unfolding insert_all insert_deposit
  insert_all-IsInOrder [] t log h = h
  insert_all-IsInOrder (d ∷ ds) t log (keys, covered, ordered) =
      let same : IsInOrder (t, log) = (keys, covered, ordered) in
      insert_all-IsInOrder ds _ log (
        if-either (λ u. IsInOrder (u, log)) (faults.insert_fails d.txid d.vout) t
          (insert_deposit d t) (λ e. same)
          (if-either (λ u. IsInOrder (u, log)) (leb_ℤ d.satoshis (pos 0)) t (upsert d t) (λ e. same)
            (upsert-HaveKeys d t keys, upsert-covers d log t covered, ordered)))

  pub retry_escrows-IsInOrder :
      (t : Table) (log : CallLog)
      → IsInOrder (t, log)
      → IsInOrder (retry_escrows (recording answer) faults (t, log))
  unfolding retry_escrows list_not_escrowed
  retry_escrows-IsInOrder t log h =
      if-either IsInOrder faults.list_fails (t, log) _ (λ e. h)
        (retry_calls-IsInOrder answer faults _ t log h (select-Matches _ t h.0))

  pub check_confirmations-IsInOrder :
      (cfg : Config) (height : ℕ) (t : Table) (log : CallLog)
      → IsInOrder (t, log)
      → IsInOrder (check_confirmations (recording answer) faults cfg height (t, log))
  unfolding check_confirmations list_ready_to_confirm
  check_confirmations-IsInOrder cfg height t log (keys, covered, ordered) =
      if-either IsInOrder faults.list_fails (t, log) _ (λ e. (keys, covered, ordered))
        (confirm_calls-IsInOrder answer faults _ t log (keys, covered, ordered)
          (selected-AreAgreed answer faults _ log t (λ r e. ground (arith, e)) covered))

  pub cancel_reorged_escrows-IsInOrder :
      (cfg : Config) (now : ℕ) (t : Table) (log : CallLog)
      → IsInOrder (t, log)
      → IsInOrder (cancel_reorged_escrows (recording answer) faults cfg now (t, log))
  unfolding cancel_reorged_escrows list_reorged_escrowed
  cancel_reorged_escrows-IsInOrder cfg now t log (keys, covered, ordered) =
      if-either IsInOrder faults.list_fails (t, log) _ (λ e. (keys, covered, ordered))
        (cancel_calls-IsInOrder answer faults _ t log (keys, covered, ordered)
          (selected-AreAgreed answer faults _ log t (λ r e. ground (arith, e)) covered))
