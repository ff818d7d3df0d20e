-- ===== src/MatchEngine/Matching.antt =====
-- `matchBuy` and `matchSell` of matchengine/book.go. The two loops share one body up to the side of
-- the book, which is `trade` with the two events of a fill. `copyFills` copies a list, which is the
-- list itself here.
use secwager.Prelude.{
  ℕ, ◌++◌, ◌∷◌, ltb, ◌*◌, update, Bool, false, sub32, add32, ◌&&◌, ◌==◌, leb, if◌then◌else◌, while,
  [], ◌+◌, List,
}
use secwager.MatchEngine.Types.{
  Order, Match, Event, Slot, Level, OrderBook, min32, no_order, ExecType, trader_str, RejectReason,
}
use secwager.MatchEngine.Book.{enqueue, skip_inactive}

-- One side of a fill.
abbrev pub add_fill : Slot → Match → Slot
add_fill s m = record s {
  size = sub32 s.size m.qty;
  qty_filled = add32 s.qty_filled m.qty;
  fills = s.fills ++ m ∷ [];
}

-- The counterparty, as it is listed in the other order's fills.
abbrev pub match_with : (ℕ → Slot) → ℕ → (price qty : ℕ) → Match
match_with pool i price qty = record {
  order_id = i;
  trader = trader_str (pool i).trader;
  price = price;
  qty = qty;
}

-- The fill between the incoming order `id` and the resting order, at the resting order's price.
unfoldable pub trade : (ℕ → Slot) → (id resting_id : ℕ) → ℕ → Slot
trade pool id resting_id =
    let fill = min32 (pool id).size (pool resting_id).size in
    let price = (pool resting_id).price in
    let agg = update pool id (add_fill (pool id) (match_with pool resting_id price fill)) in
    update agg resting_id (add_fill (agg resting_id) (match_with agg id price fill))

-- The event of type `t` on the order `id`, as its slot now is.
abbrev pub slot_event : (ℕ → Slot) → ℕ → ExecType → Event
slot_event pool id t = Event.order (record {
  order_id = id;
  trader = trader_str (pool id).trader;
  exec_type = t;
  qty_filled = (pool id).qty_filled;
  qty_remaining = (pool id).size;
  fills = (pool id).fills;
  reason = RejectReason.unspecified;
})

abbrev pub deactivate : (ℕ → Slot) → ℕ → ℕ → Slot
deactivate pool i = update pool i (record (pool i) { active = false })

-- `lvl.head = resting.next`, and no tail if that was the last order.
abbrev pub pop_head : (ℕ → Slot) → Level → Level
pop_head pool lvl =
    let next = (pool lvl.head).next in
    record { head = next; tail = if next == no_order then no_order else lvl.tail }

-- The events of one fill: the resting side first.
abbrev pub fill_events : (ℕ → Slot) → (id resting_id : ℕ) → List Event
fill_events pool id resting_id =
    slot_event pool resting_id ExecType.filled ∷ slot_event pool id ExecType.filled ∷ []

-- One fill against the head of a level: if that used the resting order up, it leaves the level.
unfoldable pub fill_head : (ℕ → Slot) → ℕ → Level → (ℕ → Slot) × Level
fill_head pool id lvl =
    let traded = trade pool id lvl.head in
    if (traded lvl.head).size == 0
    then (deactivate traded lvl.head, pop_head traded lvl)
    else (traded, lvl)

-- The state of a matching loop: the book and the events so far.
abbrev pub Sweep : Type 0
Sweep = OrderBook × List Event

abbrev pub match_buy_test : ℕ → ℕ → Sweep → Bool
match_buy_test id price (b, _) = ltb 0 (b.pool id).size && leb b.ask_min price

-- The best ask moves on when its level has become empty. A level that keeps its order is not empty.
unfoldable pub match_buy_step : ℕ → Sweep → Sweep
match_buy_step id (b, events) =
    let lvl = skip_inactive b (b.sells b.ask_min) in
    if lvl.head == no_order
    then (record b { sells = update b.sells b.ask_min lvl; ask_min = add32 b.ask_min 1 }, events)
    else let (pool, lvl') = fill_head b.pool id lvl in
      (
        record b {
          pool = pool;
          sells = update b.sells b.ask_min lvl';
          ask_min = if lvl'.head == no_order then add32 b.ask_min 1 else b.ask_min;
        },
        events ++ fill_events (trade b.pool id lvl.head) id lvl.head,
      )

abbrev pub match_sell_test : ℕ → ℕ → Sweep → Bool
match_sell_test id price (b, _) = ltb 0 (b.pool id).size && leb price b.bid_max && ltb 0 b.bid_max

unfoldable pub match_sell_step : ℕ → Sweep → Sweep
match_sell_step id (b, events) =
    let lvl = skip_inactive b (b.buys b.bid_max) in
    if lvl.head == no_order
    then (record b { buys = update b.buys b.bid_max lvl; bid_max = sub32 b.bid_max 1 }, events)
    else let (pool, lvl') = fill_head b.pool id lvl in
      (
        record b {
          pool = pool;
          buys = update b.buys b.bid_max lvl';
          bid_max =
              if (lvl'.head == no_order) && ltb 0 b.bid_max then sub32 b.bid_max 1 else b.bid_max;
        },
        events ++ fill_events (trade b.pool id lvl.head) id lvl.head,
      )

-- Rounds enough for either loop: each round takes a price level away, or an order from its level.
unfoldable pub match_fuel : OrderBook → ℕ
match_fuel b = 65537 * (b.pool_top + 2)

-- What follows the loop of `matchBuy`: rest in the book, or leave.
unfoldable pub rest_buy : ℕ → Order → Sweep → Sweep
rest_buy id o (b, events) =
    let (pool, lvl) = enqueue b.pool (b.buys o.price) id in
    if ltb 0 (b.pool id).size
    then (
      record b {
        pool = pool;
        buys = update b.buys o.price lvl;
        bid_max = if ltb b.bid_max o.price then o.price else b.bid_max;
      },
      events ++ slot_event pool id ExecType.accepted ∷ [],
    )
    else (record b { pool = deactivate b.pool id }, events)

unfoldable pub rest_sell : ℕ → Order → Sweep → Sweep
rest_sell id o (b, events) =
    let (pool, lvl) = enqueue b.pool (b.sells o.price) id in
    if ltb 0 (b.pool id).size
    then (
      record b {
        pool = pool;
        sells = update b.sells o.price lvl;
        ask_min = if ltb o.price b.ask_min then o.price else b.ask_min;
      },
      events ++ slot_event pool id ExecType.accepted ∷ [],
    )
    else (record b { pool = deactivate b.pool id }, events)

unfoldable pub match_buy : ℕ → Order → Sweep → Sweep
match_buy id o s =
    rest_buy id o (while (match_fuel s.0) (match_buy_test id o.price) (match_buy_step id) s)

unfoldable pub match_sell : ℕ → Order → Sweep → Sweep
match_sell id o s =
    rest_sell id o (while (match_fuel s.0) (match_sell_test id o.price) (match_sell_step id) s)
