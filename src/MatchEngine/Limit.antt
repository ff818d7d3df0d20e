-- ===== src/MatchEngine/Limit.antt =====
-- `OrderBook.Limit` of matchengine/book.go.
use secwager.Prelude.{◌∷◌, ℕ, ◌==◌, leb, if◌then◌else◌, [], List}
use secwager.MatchEngine.Types.{
  Order, Event, OrderBook, Side, no_order, RejectReason, max_orders, trader_str, ExecType,
}
use secwager.MatchEngine.Book.{alloc, bbo_of, append_bbo_if_changed}
use secwager.MatchEngine.Matching.{match_buy, match_sell}

abbrev pub reject_limit : Order → RejectReason → Event
reject_limit o reason = Event.order (record {
  order_id = no_order;
  trader = trader_str o.trader;
  exec_type = ExecType.rejected;
  qty_filled = 0;
  qty_remaining = 0;
  fills = [];
  reason = reason;
})

abbrev pub match_order : ℕ → Order → Side → OrderBook → OrderBook × List Event
match_order id o Side.buy b = match_buy id o (b, [])
match_order id o Side.sell b = match_sell id o (b, [])

-- The accepted path. `id` and the empty slot of the new order are in the book when the best prices
-- are read, but in no chain.
unfoldable pub submit : Order → OrderBook → ℕ × OrderBook × List Event
submit o b =
    let (id, b1) = alloc o b in
    let (b2, events) = match_order id o o.side b1 in
    (id, b2, append_bbo_if_changed events (bbo_of b1) b2)

unfoldable pub limit : Order → OrderBook → ℕ × OrderBook × List Event
limit o b =
    if o.price == 0
    then (no_order, b, reject_limit o RejectReason.unspecified ∷ [])
    else if leb max_orders b.pool_top
    then (no_order, b, reject_limit o RejectReason.pool_exhausted ∷ [])
    else submit o b
