-- ===== src/BtcWatcher/Watcher.antt =====
-- `Watcher` of btcwatcher/internal/watcher.go. The chain, the users' database, the address codec and
-- the cashier behind gRPC are parameters; the table is that of `TxStore`.
use secwager.BtcWatcher.Chain.{relevant_deposits, UserRecord, Tx, poll_new_users, AddrIndex}
use secwager.Prelude.{
  ℕ, none, ◌∷◌, ◌<>◌, ◌&&◌, [], ◌==◌, some, not, if◌then◌else◌, String, Bool, Option, List, itoa,
}
use secwager.Prelude.Int.{ℤ}
use secwager.BtcWatcher.TxStore.{
  Deposit, Table, insert_deposit, list_not_escrowed, list_ready_to_confirm, list_reorged_escrowed,
  mark_escrowed, mark_confirmed, mark_cancelled, delete_from_height,
}

unfoldable pub deposit_ref : String → ℕ → String
unfolding itoa
deposit_ref txid vout = txid <> ":" <> itoa vout

-- `CashierClient`: whether a call came back without an error, and the cashier after it.
pub record CashierClient (S : Type 0) : Type 0 where
  pub deposit_escrowed : String → ℤ → String → S → Bool × S
  pub confirm_deposit : String → ℤ → String → S → Bool × S
  pub cancel_deposit : String → ℤ → String → S → Bool × S

-- The statements on the table that fail.
pub record TxFaults : Type 0 where
  pub insert_fails : String → ℕ → Bool
  pub list_fails : Bool
  pub mark_fails : String → ℕ → Bool
  pub soft_fails : Bool
  pub hard_fails : Bool

pub record Config : Type 0 where
  pub confirmations : ℕ
  pub reorg_cancel_age : ℕ

-- The table and the cashier.
abbrev pub Watched : Type 0 → Type 0
Watched S = Table × S

module _ {S : Type 0} (client : CashierClient S) (faults : TxFaults) where
  -- The loop of the three handlers: call the cashier on each row, and mark the rows where it agreed.
  unfoldable pub call_rows :
      (Deposit → String → S → Bool × S)
      → (String → ℕ → Table → Table)
      → List Deposit
      → Watched S
      → Watched S
  call_rows call mark [] w = w
  call_rows call mark (d ∷ ds) (t, s) =
      let (agreed, s') = call d (deposit_ref d.txid d.vout) s in
      call_rows call mark ds
        (if agreed && not (faults.mark_fails d.txid d.vout) then mark d.txid d.vout t else t, s')

  unfoldable pub retry_escrows : Watched S → Watched S
  unfolding call_rows
  retry_escrows (t, s) =
      if faults.list_fails
      then (t, s)
      else call_rows (λ d ref. client.deposit_escrowed d.user_id d.satoshis ref) mark_escrowed
          (list_not_escrowed t) (t, s)

  unfoldable pub check_confirmations : Config → ℕ → Watched S → Watched S
  unfolding call_rows
  check_confirmations cfg current_height (t, s) =
      if faults.list_fails
      then (t, s)
      else call_rows (λ d ref. client.confirm_deposit d.user_id d.satoshis ref) mark_confirmed
          (list_ready_to_confirm cfg.confirmations current_height t) (t, s)

  unfoldable pub cancel_reorged_escrows : Config → ℕ → Watched S → Watched S
  unfolding call_rows
  cancel_reorged_escrows cfg now (t, s) =
      let age = if cfg.reorg_cancel_age == 0 then 1200000 else cfg.reorg_cancel_age in
      if faults.list_fails
      then (t, s)
      else call_rows (λ d ref. client.cancel_deposit d.user_id d.satoshis ref) mark_cancelled
          (list_reorged_escrowed age now t) (t, s)

  -- The watched outputs of a block, with the user of the address, in the order of the loops.
  unfoldable pub insert_all : List Deposit → Table → Table
  insert_all [] t = t
  insert_all (d ∷ ds) t =
      insert_all ds (if faults.insert_fails d.txid d.vout then t else insert_deposit d t)

  unfoldable pub handle_block_connected : Config → Bool → ℕ → List Deposit → Watched S → Watched S
  unfolding insert_all retry_escrows check_confirmations
  handle_block_connected cfg is_leader height outputs (t, s) =
      let w : Watched S = (insert_all outputs t, s) in
      if is_leader then check_confirmations cfg height (retry_escrows w) else w

-- What the `select` of `Run` may receive; `tip` is what the node's `BestBlock` gives.
pub data Happening : Type 0 where
  poll : List UserRecord → Happening
  cashier_tick : (now : ℕ) → (tip : Option ℕ) → Happening
  connected : (height : ℕ) → List Tx → Happening
  disconnected : (height now : ℕ) → Happening

module _ {S : Type 0} (client : CashierClient S) (cfg : Config) where
  -- One round of the loop of `Run`, on a node that is the leader or is not.
  unfoldable pub round : TxFaults → Bool → Happening → AddrIndex × Watched S → AddrIndex × Watched S
  unfolding retry_escrows check_confirmations cancel_reorged_escrows handle_block_connected
      relevant_deposits poll_new_users
  round faults is_leader (poll records) (index, w) = ((poll_new_users records index).0, w)
  round faults is_leader (cashier_tick now tip) (index, w) =
      if is_leader
      then (let w' = cancel_reorged_escrows client faults cfg now (retry_escrows client faults w) in
          (
            index,
            elim tip [ none ↦ w' | some height ↦ check_confirmations client faults cfg height w' ],
          ))
      else (index, w)
  round faults is_leader (connected height txs) (index, w) = (
    index,
    handle_block_connected client faults cfg is_leader height (relevant_deposits index height txs)
        w,
  )
  round faults is_leader (disconnected height now) (index, (t, s)) =
      (index, (delete_from_height faults.soft_fails faults.hard_fails height now t, s))
