-- ===== src/MatchEngine/Persistence.antt =====
-- `Snapshot` and `Restore` of matchengine/book.go.
use secwager.Prelude.{
  ◌||◌, ◌++◌, ◌∷◌, ltb, update, ◌-◌, false, ℕ, zero, ◌==◌, suc, true, leb, if◌then◌else◌, [], ◌+◌,
  List,
}
use secwager.MatchEngine.Types.{
  OrderEntry, BookState, OrderBook, Slot, no_order, max_price, Side, max_orders,
}
use secwager.MatchEngine.Book.{new_book, enqueue, best_bid, best_ask}

abbrev pub entry_of : (ℕ → Slot) → ℕ → Side → OrderEntry
entry_of pool cur side = record {
  id = cur;
  trader = (pool cur).trader;
  price = (pool cur).price;
  size = (pool cur).size;
  side = side;
  qty_filled = (pool cur).qty_filled;
  fills = (pool cur).fills;
}

-- The entries of the active orders of one chain, in its order.
unfoldable pub chain_entries : ℕ → (ℕ → Slot) → ℕ → Side → List OrderEntry
chain_entries zero pool cur side = []
chain_entries (suc f) pool cur side = elim (cur == no_order) [
  | true ↦ []
  | false ↦
      let rest = chain_entries f pool (pool cur).next side in
      if (pool cur).active then entry_of pool cur side ∷ rest else rest
]

-- The bids from the price `p` down, and the asks from the price `p` up.
unfoldable pub bid_entries : OrderBook → ℕ → List OrderEntry
bid_entries b zero = []
bid_entries b (suc p) =
    chain_entries b.pool_top b.pool (b.buys (suc p)).head Side.buy ++ bid_entries b p

unfoldable pub ask_entries : OrderBook → ℕ → ℕ → List OrderEntry
ask_entries b zero p = []
ask_entries b (suc k) p =
    chain_entries b.pool_top b.pool (b.sells p).head Side.sell ++ ask_entries b k (p + 1)

unfoldable pub snapshot : OrderBook → BookState
snapshot b =
    let bid = best_bid b in
    let ask = best_ask b in
    record {
      orders = bid_entries b bid ++ (if ask == 0 then [] else ask_entries b (max_price - ask) ask);
      best_bid = bid;
      best_ask = ask;
      pool_top = b.pool_top;
    }

-- One round of `Restore`: the slot is filled in, and the order goes to the end of its level.
unfoldable pub restore_entry : OrderBook → OrderEntry → OrderBook
restore_entry b e =
    if (e.id == no_order) || leb max_orders e.id
    then b
    else let pool = update b.pool e.id (record {
      trader = e.trader;
      size = e.size;
      next = no_order;
      price = e.price;
      side = e.side;
      active = true;
      qty_filled = e.qty_filled;
      fills = e.fills;
    }) in
      elim e.side [
        | Side.buy ↦
            let (pool', lvl) = enqueue pool (b.buys e.price) e.id in
            record b { pool = pool'; buys = update b.buys e.price lvl }
        | Side.sell ↦
            let (pool', lvl) = enqueue pool (b.sells e.price) e.id in
            record b { pool = pool'; sells = update b.sells e.price lvl }
      ]

unfoldable pub restore_entries : OrderBook → List OrderEntry → OrderBook
restore_entries b [] = b
restore_entries b (e ∷ es) = restore_entries (restore_entry b e) es

-- The old book is dropped whole: `Restore` begins by `reset`.
unfoldable pub restore : BookState → OrderBook
restore state = record (restore_entries new_book state.orders) {
  bid_max = state.best_bid;
  ask_min = if state.best_ask == 0 then max_price else state.best_ask;
  pool_top = if ltb state.pool_top 1 then 1 else state.pool_top;
}
