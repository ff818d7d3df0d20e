-- ===== src/BtcWatcher/Reorgs.antt =====
-- What a disconnected block does to the table of btcwatcher/internal/txstore.go, and who calls the
-- cashier in btcwatcher/internal/watcher.go.
use secwager.Prelude.{◌&&◌, ℕ, not, refl, some, false, Bool, ◌≡◌}
use secwager.BtcWatcher.TxStore.{Row, in_reorg}
use secwager.BtcWatcher.Chain.{AddrIndex}
use secwager.BtcWatcher.Watcher.{
  CashierClient, Config, TxFaults, Happening, Watched, round, handle_block_connected,
}

-- A row that a reorg from `height` on leaves alone.
abbrev pub spared : ℕ → Row → Bool
spared height r = not (in_reorg height r)

-- An unconfirmed row from the height on that the cashier holds in escrow.
abbrev pub held : ℕ → Row → Bool
held height r = in_reorg height r && r.escrowed

-- One that the cashier has not been told of.
abbrev pub untold : ℕ → Row → Bool
untold height r = in_reorg height r && not r.escrowed

abbrev pub stamped : ℕ → Row → Row
stamped now r = record r { reorged_at = some now }

-- A node that is not the leader never changes the cashier, whatever happens.
round_follower :
    {S : Type 0} (client : CashierClient S) (cfg : Config) (faults : TxFaults) (h : Happening)
    (index : AddrIndex) (w : Watched S)
    → (round client cfg faults false h (index, w)).1.1 ≡ w.1
unfolding round handle_block_connected
round_follower client cfg faults (Happening.poll records) index w = refl
round_follower client cfg faults (Happening.cashier_tick now tip) index w = refl
round_follower client cfg faults (Happening.connected height txs) index w = refl
round_follower client cfg faults (Happening.disconnected height now) index w = refl
