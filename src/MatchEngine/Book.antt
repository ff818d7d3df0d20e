-- ===== src/MatchEngine/Book.antt =====
-- The helpers of matchengine/book.go: a new book, `alloc`, `enqueue`, `skipInactive`, the best prices
-- with their quantities, and `appendBBOIfChanged`. A pointer to a price level is the level, which the
-- caller writes back.
use secwager.Prelude.{
  ℕ, ◌++◌, ◌^◌, zero, true, ◌+◌, ◌-◌, List, update, ◌%◌, ◌&&◌, add32, [], ◌∷◌, ◌==◌, suc,
  if◌then◌else◌, Bool, false,
}
use secwager.MatchEngine.Types.{
  Order, Event, Slot, Level, OrderBook, max_price, empty_slot, empty_level, first_active, BboEvent,
  no_order,
}

-- `New` and `reset`
unfoldable pub new_book : OrderBook
new_book = record {
  pool = λ _. empty_slot;
  pool_top = 1;
  buys = λ _. empty_level;
  sells = λ _. empty_level;
  bid_max = 0;
  ask_min = max_price;
}

unfoldable pub alloc : Order → OrderBook → ℕ × OrderBook
alloc o b = (
  b.pool_top,
  record b {
    pool = update b.pool b.pool_top (record {
      trader = o.trader;
      size = o.size;
      next = no_order;
      price = o.price;
      side = o.side;
      active = true;
      qty_filled = 0;
      fills = [];
    });
    pool_top = add32 b.pool_top 1;
  },
)

-- `b.pool[i].next = n`
abbrev pub set_next : (ℕ → Slot) → ℕ → ℕ → ℕ → Slot
set_next pool i n = update pool i (record (pool i) { next = n })

unfoldable pub enqueue : (ℕ → Slot) → Level → ℕ → (ℕ → Slot) × Level
enqueue pool lvl id =
    let cleared = set_next pool id no_order in
    if lvl.tail == no_order
    then (cleared, record { head = id; tail = id })
    else (set_next cleared lvl.tail id, record { head = lvl.head; tail = id })

unfoldable pub skip_inactive : OrderBook → Level → Level
skip_inactive b lvl =
    let h = first_active b.pool_top b.pool lvl.head in
    record { head = h; tail = if h == no_order then no_order else lvl.tail }

-- The loop of `BestBid`, from the price `p` down.
unfoldable pub best_bid_from : OrderBook → ℕ → ℕ
best_bid_from b zero = 0
best_bid_from b (suc p) = elim (first_active b.pool_top b.pool (b.buys (suc p)).head == no_order) [
  | true ↦ best_bid_from b p
  | false ↦ suc p % 2 ^ 16
]

unfoldable pub best_bid : OrderBook → ℕ
best_bid b = best_bid_from b b.bid_max

-- The loop of `BestAsk`, from the price `p` up, with `k` prices left below `max_price`.
unfoldable pub best_ask_from : OrderBook → ℕ → ℕ → ℕ
best_ask_from b zero p = 0
best_ask_from b (suc k) p = elim (first_active b.pool_top b.pool (b.sells p).head == no_order) [
  | true ↦ best_ask_from b k (p + 1)
  | false ↦ p % 2 ^ 16
]

unfoldable pub best_ask : OrderBook → ℕ
best_ask b = best_ask_from b (max_price - b.ask_min) b.ask_min

-- The sum of the active sizes along a chain, on uint32.
unfoldable pub chain_qty : ℕ → (ℕ → Slot) → ℕ → ℕ → ℕ
chain_qty zero pool cur qty = qty
chain_qty (suc f) pool cur qty = elim (cur == no_order) [
  | true ↦ qty
  | false ↦
      chain_qty f pool (pool cur).next
        (if (pool cur).active then add32 qty (pool cur).size else qty)
]

unfoldable pub best_bid_qty : OrderBook → ℕ
best_bid_qty b =
    let p = best_bid b in if p == 0 then 0 else chain_qty b.pool_top b.pool (b.buys p).head 0

unfoldable pub best_ask_qty : OrderBook → ℕ
best_ask_qty b =
    let p = best_ask b in if p == 0 then 0 else chain_qty b.pool_top b.pool (b.sells p).head 0

-- The best prices and quantities, which `Limit` and `Cancel` read before they change the book.
unfoldable pub bbo_of : OrderBook → BboEvent
bbo_of b = record {
  bid = best_bid b;
  bid_qty = best_bid_qty b;
  ask = best_ask b;
  ask_qty = best_ask_qty b;
}

abbrev pub same_bbo : BboEvent → BboEvent → Bool
same_bbo x y = x.bid == y.bid && x.bid_qty == y.bid_qty && x.ask == y.ask && x.ask_qty == y.ask_qty

unfoldable pub append_bbo_if_changed : List Event → BboEvent → OrderBook → List Event
append_bbo_if_changed events prev b =
    if same_bbo (bbo_of b) prev then events else events ++ Event.bbo (bbo_of b) ∷ []
