-- ===== src/BtcWatcher/Rounds.antt =====
-- The loop of `Run` in btcwatcher/internal/watcher.go, round after round, with a cashier that answers as
-- it likes.
use secwager.BtcWatcher.Chain.{AddrIndex, relevant_deposits}
use secwager.BtcWatcher.TxStore.{Deposit, Table, soft_delete, hard_delete, delete_from_height}
use secwager.BtcWatcher.Watcher.{
  Config, Happening, TxFaults, Watched, handle_block_connected, insert_all, round,
}
use secwager.BtcWatcher.Calls.{CallLog, CashierCall, IsCovered, recording}
use secwager.BtcWatcher.Ordering.{
  IsInOrder, filter-HaveKeys, if-either, update_where-All, update_where-HaveKeys,
}
use secwager.BtcWatcher.Sessions.{
  cancel_reorged_escrows-IsInOrder, check_confirmations-IsInOrder, insert_all-IsInOrder,
  retry_escrows-IsInOrder,
}
use secwager.Prelude.{ℕ, true, false, none, some, Bool, List, All-filter, refl, [], ◌∷◌}

soft_delete-IsInOrder :
    (height now : ℕ) (t : Table) (log : CallLog)
    → IsInOrder (t, log)
    → IsInOrder (soft_delete height now t, log)
unfolding soft_delete
soft_delete-IsInOrder height now t log (keys, covered, ordered) = (
  update_where-HaveKeys _ (λ r. record r { reorged_at = some now }) (λ r. (refl, refl, refl, refl))
      t keys,
  update_where-All _ (λ r. record r { reorged_at = some now }) (λ r. (refl, refl, refl, refl))
      (IsCovered log) t (λ r e k. k) covered,
  ordered,
)

hard_delete-IsInOrder :
    (height : ℕ) (t : Table) (log : CallLog)
    → IsInOrder (t, log)
    → IsInOrder (hard_delete height t, log)
unfolding hard_delete
hard_delete-IsInOrder height t log (keys, covered, ordered) =
    (filter-HaveKeys _ t keys, All-filter (IsCovered log) _ t covered, ordered)

delete_from_height-IsInOrder :
    (fails_soft fails_hard : Bool) (height now : ℕ) (t : Table) (log : CallLog)
    → IsInOrder (t, log)
    → IsInOrder (delete_from_height fails_soft fails_hard height now t, log)
unfolding delete_from_height
delete_from_height-IsInOrder fails_soft fails_hard height now t log h =
    let soft = soft_delete-IsInOrder height now t log h in
    if-either (λ u. IsInOrder (u, log)) fails_soft t _ (λ e. h)
      (if-either (λ u. IsInOrder (u, log)) fails_hard (soft_delete height now t) _ (λ e. soft)
        (hard_delete-IsInOrder height _ log soft))

-- What the loop meets in a round: the statements that fail, whether the node leads, and what it
-- receives.
abbrev pub Turn : Type 0
Turn = TxFaults × Bool × Happening

unfoldable pub rounds_run :
    {S : Type 0}
    → (TxFaults → Bool → Happening → AddrIndex × Watched S → AddrIndex × Watched S)
    → List Turn
    → AddrIndex × Watched S
    → AddrIndex × Watched S
rounds_run turn [] state = state
rounds_run turn ((faults, is_leader, h) ∷ turns) state =
    rounds_run turn turns (turn faults is_leader h state)

module _ (answer : CashierCall → CallLog → Bool) (cfg : Config) where
  connected-IsInOrder :
      (faults : TxFaults) (is_leader : Bool) (height : ℕ) (outputs : List Deposit) (t : Table)
      (log : CallLog)
      → IsInOrder (t, log)
      → IsInOrder
          (handle_block_connected (recording answer) faults cfg is_leader height outputs (t, log))
  unfolding handle_block_connected
  connected-IsInOrder faults is_leader height outputs t log h =
      let inserted = insert_all-IsInOrder answer faults outputs t log h in
      let retried = retry_escrows-IsInOrder answer faults _ log inserted in
      if-either IsInOrder is_leader _ (insert_all (recording answer) faults outputs t, log)
        (λ e. check_confirmations-IsInOrder answer faults cfg height _ _ retried) inserted

  round-IsInOrder :
      (faults : TxFaults) (is_leader : Bool) (h : Happening) (index : AddrIndex) (t : Table)
      (log : CallLog)
      → IsInOrder (t, log)
      → IsInOrder (round (recording answer) cfg faults is_leader h (index, (t, log))).1
  unfolding round
  round-IsInOrder faults is_leader (Happening.poll records) index t log h = h
  round-IsInOrder faults false (Happening.cashier_tick now tip) index t log h = h
  round-IsInOrder faults true (Happening.cashier_tick now none) index t log h =
      cancel_reorged_escrows-IsInOrder answer faults cfg now _ _
        (retry_escrows-IsInOrder answer faults t log h)
  round-IsInOrder faults true (Happening.cashier_tick now (some height)) index t log h =
      check_confirmations-IsInOrder answer faults cfg height _ _ (
        cancel_reorged_escrows-IsInOrder answer faults cfg now _ _
          (retry_escrows-IsInOrder answer faults t log h))
  round-IsInOrder faults is_leader (Happening.connected height txs) index t log h =
      connected-IsInOrder faults is_leader height (relevant_deposits index height txs) t log h
  round-IsInOrder faults is_leader (Happening.disconnected height now) index t log h =
      delete_from_height-IsInOrder faults.soft_fails faults.hard_fails height now t log h

  -- Start from a table with one row per output, in which each row in escrow has an escrow call that the
  -- cashier agreed to, and from a log of calls in which each call to confirm or to cancel comes after an
  -- agreed call to escrow the same amount of the same user under the same reference. After any rounds of
  -- the loop of `Run`, whatever statements on the table fail, whenever the node leads, and whatever the
  -- cashier answers, the table and the log are such again.
  pub rounds_run-IsInOrder :
      (turns : List Turn) (index : AddrIndex) (t : Table) (log : CallLog)
      → IsInOrder (t, log)
      → IsInOrder (rounds_run (round (recording answer) cfg) turns (index, (t, log))).1
  unfolding rounds_run
  rounds_run-IsInOrder [] index t log h = h
  rounds_run-IsInOrder ((faults, is_leader, h) ∷ turns) index t log start =
      rounds_run-IsInOrder turns _ _ _ (round-IsInOrder faults is_leader h index t log start)
