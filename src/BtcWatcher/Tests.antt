-- ===== src/BtcWatcher/Tests.antt =====
-- The watcher of btcwatcher/internal/watcher.go at work, on a small table and a cashier that agrees.
use secwager.BtcWatcher.Escrowing.{retry_escrows_lem, no_tx_faults}
use secwager.BtcWatcher.Calls.{CallLog, CashierCall, recording}
use secwager.BtcWatcher.Ordering.{IsInOrder}
use secwager.BtcWatcher.Rounds.{Turn, rounds_run, rounds_run-IsInOrder}
use secwager.Prelude.Int.{pos}
use secwager.BtcWatcher.TxStore.{
  list_reorged_escrowed, mark_escrowed, delete_from_height, Table, list_ready_to_confirm, Row,
  list_not_escrowed, soft_delete, hard_delete,
}
use secwager.Prelude.{ℕ, none, ◌+◌, refl, ◌≡◌, some, ◌∷◌, [], true, false, List, arith, Bool}
use secwager.BtcWatcher.Watcher.{
  deposit_ref, Happening, round, CashierClient, Config, retry_escrows, Watched,
}

abbrev agreeing : CashierClient ℕ
agreeing = record {
  deposit_escrowed = λ user amount ref calls. (true, calls + 1);
  confirm_deposit = λ user amount ref calls. (true, calls + 1);
  cancel_deposit = λ user amount ref calls. (true, calls + 1);
}

abbrev config : Config
config = record { confirmations = 3; reorg_cancel_age = 0 }

abbrev seen : Row
seen = record {
  txid = "ab";
  vout = 0;
  user_id = "u";
  satoshis = pos 500;
  seen_at_height = 100;
  escrowed = false;
  confirmed = false;
  reorged_at = none;
}

abbrev in_escrow : Row
in_escrow = record seen { txid = "cd"; escrowed = true }

abbrev settled : Row
settled = record in_escrow { txid = "ef"; confirmed = true }

abbrev rows : Table
rows = seen ∷ in_escrow ∷ settled ∷ []

-- A block at height 100 is disconnected: the row in escrow is stamped, the other is gone, and the
-- confirmed one stays.
disconnects :
    delete_from_height false false 100 7 rows
    ≡ record in_escrow { reorged_at = some 7 } ∷ settled ∷ []
unfolding delete_from_height soft_delete hard_delete
disconnects = refl

-- Put in escrow as it is seen, confirmed when it is deep enough.
abbrev turns : List Turn
turns =
    (no_tx_faults, true, Happening.connected 102 [])
    ∷ (no_tx_faults, false, Happening.cashier_tick 8 (some 103))
    ∷ (no_tx_faults, true, Happening.cashier_tick 9 (some 103))
    ∷ []

abbrev always : CashierCall → CallLog → Bool
always c log = true

abbrev after_turns : Watched CallLog
after_turns =
    (rounds_run (round (recording always) config) turns ((λ addr. none), (seen ∷ [], []))).1

turns_called :
    after_turns.1
    ≡ (CashierCall.confirm_call "u" (pos 500) "ab:0", true)
      ∷ (CashierCall.escrow_call "u" (pos 500) "ab:0", true)
      ∷ []
unfolding rounds_run round list_ready_to_confirm list_reorged_escrowed list_not_escrowed recording
    mark_escrowed deposit_ref
turns_called = refl

rounds_run-IsInOrder_example : IsInOrder after_turns
rounds_run-IsInOrder_example =
    rounds_run-IsInOrder always config turns (λ addr. none) (seen ∷ []) []
      ((refl, tt), ((λ e. absurd (ground (arith, e))), tt), tt)

retry_escrows_lem_example : list_not_escrowed (retry_escrows agreeing no_tx_faults (rows, 0)).0 ≡ []
retry_escrows_lem_example = retry_escrows_lem agreeing (λ user amount ref s. refl) (rows, 0)
