-- ===== src/MatchEngine/Tests.antt =====
-- The book of matchengine/book.go at work, and its theorems at orders that meet their hypotheses.
use secwager.MatchEngine.Matching.{
  match_sell, match_buy, match_sell_step, match_buy_step, match_fuel, rest_sell, rest_buy,
  fill_head, trade,
}
use secwager.MatchEngine.Cancelling.{HasBid, HasAsk, cancel_lem, cancel_twice}
use secwager.MatchEngine.Limiting.{limit_conserves, limit-AtBest, limit-IsValid}
use secwager.MatchEngine.Best.{LiveAt, front, best_bid_lem, best_ask_lem}
use secwager.MatchEngine.Accounting.{total_qty, original}
use secwager.MatchEngine.Validity.{IsOrder, IsValid}
use secwager.MatchEngine.Sessions.{Reach, Reach-uncrossed, next, Reach-IsValid, start, limited}
use secwager.MatchEngine.Cancel.{cancel, reject_cancel}
use secwager.Prelude.{
  ℕ, false, while, ◌<◌, refl, arith, All, true, ◌≢◌, [], ◌≡◌, length, ◌≤◌, ◌∷◌, ◌⊎◌,
}
use secwager.MatchEngine.Types.{
  Order, OrderBook, Side, RejectReason, max_price, no_order, first_active, min32,
}
use secwager.MatchEngine.Book.{
  new_book, best_ask, best_bid, alloc, enqueue, skip_inactive, append_bbo_if_changed, bbo_of,
  best_bid_from, best_ask_from, best_bid_qty, best_ask_qty, chain_qty,
}
use secwager.MatchEngine.Limit.{limit, submit}

abbrev ask : Order
ask = record { trader = 65 ∷ []; price = 65530; size = 5; side = Side.sell }

abbrev dearer_ask : Order
dearer_ask = record { trader = 66 ∷ []; price = 65532; size = 4; side = Side.sell }

abbrev bid : Order
bid = record { trader = 67 ∷ []; price = 65533; size = 7; side = Side.buy }

abbrev one_ask : OrderBook
one_ask = (limit ask new_book).1

abbrev two_asks : OrderBook
two_asks = (limit dearer_ask one_ask).1

ask-IsOrder : IsOrder ask
ask-IsOrder = omega arith

dearer_ask-IsOrder : IsOrder dearer_ask
dearer_ask-IsOrder = omega arith

bid-IsOrder : IsOrder bid
bid-IsOrder = omega arith

reached : Reach two_asks
reached =
    next (next start (limited ask new_book ask-IsOrder))
      (limited dearer_ask one_ask dearer_ask-IsOrder)

two_asks-IsValid : IsValid two_asks
two_asks-IsValid = Reach-IsValid reached

-- A bid for 7 at 65533 takes the 5 at 65530 first, then 2 of the 4 at 65532.
sweeps :
    let (id, b, events) = limit bid two_asks in
    (id ≡ 3)
    × ((b.pool 1).size ≡ 0)
    × ((b.pool 2).size ≡ 2)
    × ((b.pool 3).qty_filled ≡ 7)
    × (length events ≡ 5)
unfolding limit submit alloc match_buy match_sell match_buy_step match_sell_step while match_fuel
    rest_buy rest_sell enqueue skip_inactive first_active fill_head trade min32 new_book
    append_bbo_if_changed bbo_of best_bid best_bid_from best_ask best_ask_from best_bid_qty
    best_ask_qty chain_qty
sweeps = (refl, refl, refl, refl, refl)

two_asks_top : two_asks.pool_top ≡ 3
unfolding limit submit alloc match_sell match_sell_step while match_fuel rest_sell enqueue new_book
two_asks_top = refl

limit-IsValid_example : IsValid (limit bid two_asks).1
limit-IsValid_example = limit-IsValid bid two_asks bid-IsOrder two_asks-IsValid

limit_conserves_example :
    let (id, b, _) = limit bid two_asks in
    (id ≡ two_asks.pool_top)
    × (original (b.pool id) ≡ 7)
    × ((i : ℕ) → i ≢ id → original (b.pool i) ≡ original (two_asks.pool i))
limit_conserves_example =
    limit_conserves bid two_asks bid-IsOrder two_asks-IsValid (omega arith)
      (omega (arith, two_asks_top))

limit-AtBest_example :
    let (id, b, _) = limit bid two_asks in
    All (λ m. m.price ≤ 65533) (b.pool id).fills
    × (total_qty (b.pool id).fills ≡ (b.pool id).qty_filled)
limit-AtBest_example =
    limit-AtBest bid two_asks bid-IsOrder two_asks-IsValid (omega arith)
      (omega (arith, two_asks_top))

Reach-uncrossed_example :
    IsValid two_asks × ((best_ask two_asks ≡ 0) ⊎ (best_bid two_asks < best_ask two_asks))
Reach-uncrossed_example = Reach-uncrossed reached

best_bid_lem_example :
    (best_bid two_asks ≢ 0
      → LiveAt two_asks
          (best_bid two_asks)
          Side.buy
          (front two_asks two_asks.buys (best_bid two_asks)))
    × ((q : ℕ)
        → best_bid two_asks < q
        → q ≤ two_asks.bid_max
        → front two_asks two_asks.buys q ≡ no_order)
best_bid_lem_example = best_bid_lem two_asks two_asks-IsValid

best_ask_lem_example :
    (best_ask two_asks ≢ 0
      → LiveAt two_asks
          (best_ask two_asks)
          Side.sell
          (front two_asks two_asks.sells (best_ask two_asks)))
    × ((q : ℕ)
        → two_asks.ask_min ≤ q
        → q < max_price
        → (best_ask two_asks ≡ 0) ⊎ (q < best_ask two_asks)
        → front two_asks two_asks.sells q ≡ no_order)
best_ask_lem_example = best_ask_lem two_asks two_asks-IsValid

first_live : (two_asks.pool 1).active ≡ true
unfolding limit submit alloc match_sell match_sell_step while match_fuel rest_sell enqueue new_book
first_live = refl

cancel_lem_example :
    let b = (cancel 1 two_asks).0 in
    ((b.pool 1).active ≡ false)
    × ((b.pool 1).size ≡ 0)
    × ((i : ℕ) → i ≢ 1 → b.pool i ≡ two_asks.pool i)
    × (b.buys ≡ two_asks.buys)
    × (b.sells ≡ two_asks.sells)
    × (b.pool_top ≡ two_asks.pool_top)
    × ((two_asks.pool 1).side ≡ Side.buy
        → (b.ask_min ≡ two_asks.ask_min)
          × ((two_asks.pool 1).price ≢ two_asks.bid_max → b.bid_max ≡ two_asks.bid_max)
          × ((two_asks.pool 1).price ≡ two_asks.bid_max → HasBid b two_asks.bid_max))
    × ((two_asks.pool 1).side ≡ Side.sell
        → (b.bid_max ≡ two_asks.bid_max) × HasAsk b two_asks.ask_min)
cancel_lem_example =
    cancel_lem 1 two_asks two_asks-IsValid (omega arith) (omega (arith, two_asks_top)) first_live

cancel_twice_example :
    let b = (cancel 1 two_asks).0 in
    cancel 1 b ≡ (b, reject_cancel 1 RejectReason.already_filled ∷ [])
cancel_twice_example =
    cancel_twice 1 two_asks two_asks-IsValid (omega arith) (omega (arith, two_asks_top)) first_live
