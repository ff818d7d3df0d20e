-- ===== src/MatchEngine/LoopTests.antt =====
-- The loops of matchBuy and matchSell in matchengine/book.go, at an order that meets their hypotheses.
use secwager.MatchEngine.Resting.{alloc-Links}
use secwager.MatchEngine.Limiting.{limit-IsValid, alloc_slot, alloc-scalars, alloc-IsAccounted}
use secwager.MatchEngine.Matching.{
  match_fuel, match_buy_test, match_buy, match_sell_test, match_sell, match_buy_step,
  match_sell_step, rest_sell, rest_buy,
}
use secwager.MatchEngine.BuyLoop.{BuyInv, buy_loop_lem}
use secwager.MatchEngine.Book.{alloc, new_book, enqueue}
use secwager.MatchEngine.Validity.{IsOrder, IsValid}
use secwager.MatchEngine.SellLoop.{SellInv, sell_loop_lem}
use secwager.MatchEngine.Limit.{limit, submit}
use secwager.Prelude.{arith, refl, [], ◌<◌, ◌∷◌, while, false, ◌≡◌}
use secwager.MatchEngine.Types.{Side, OrderBook, Order, max_price}
use secwager.MatchEngine.Sessions.{new_book-IsValid}

abbrev sell_order : Order
sell_order = record { trader = 65 ∷ []; price = 65530; size = 5; side = Side.sell }

abbrev buy_order : Order
buy_order = record { trader = 67 ∷ []; price = 65533; size = 7; side = Side.buy }

sell_order-IsOrder : IsOrder sell_order
sell_order-IsOrder = omega arith

buy_order-IsOrder : IsOrder buy_order
buy_order-IsOrder = omega arith

abbrev asks : OrderBook
asks = (limit sell_order new_book).1

abbrev bids : OrderBook
bids = (limit buy_order new_book).1

asks-IsValid : IsValid asks
asks-IsValid = limit-IsValid sell_order new_book sell_order-IsOrder new_book-IsValid

bids-IsValid : IsValid bids
bids-IsValid = limit-IsValid buy_order new_book buy_order-IsOrder new_book-IsValid

asks_top : asks.pool_top ≡ 2
unfolding limit submit alloc match_sell match_sell_step while match_fuel rest_sell enqueue new_book
asks_top = refl

bids_top : bids.pool_top ≡ 2
unfolding limit submit alloc match_buy match_buy_step while match_fuel rest_buy enqueue new_book
bids_top = refl

buy_start : BuyInv asks.pool_top 65533 (alloc buy_order asks).1 ((alloc buy_order asks).1, [])
buy_start =
    let slot = alloc_slot buy_order asks in
    let scalars = alloc-scalars buy_order asks (omega (arith, asks_top)) in
    let all = alloc-IsAccounted buy_order asks buy_order-IsOrder asks-IsValid.accounts in
    record {
      links = alloc-Links buy_order asks asks-IsValid.links;
      top = scalars.1;
      same = λ i. (refl, refl, refl);
      accounts = λ i. (all i, refl);
      bid_max = refl;
      ask_up = omega arith;
      ask_le = omega (arith, scalars, asks-IsValid.uncrossed);
      priced = rw slot.2 tt;
    }

sell_start : SellInv bids.pool_top 65530 (alloc sell_order bids).1 ((alloc sell_order bids).1, [])
sell_start =
    let slot = alloc_slot sell_order bids in
    let scalars = alloc-scalars sell_order bids (omega (arith, bids_top)) in
    let all = alloc-IsAccounted sell_order bids sell_order-IsOrder bids-IsValid.accounts in
    record {
      links = alloc-Links sell_order bids bids-IsValid.links;
      top = scalars.1;
      same = λ i. (refl, refl, refl);
      accounts = λ i. (all i, refl);
      ask_min = refl;
      bid_down = omega arith;
      priced = rw slot.2 tt;
    }

buy_loop_lem_example :
    let id = asks.pool_top in
    let b = (alloc buy_order asks).1 in
    let s' = while (match_fuel b) (match_buy_test id 65533) (match_buy_step id) (b, []) in
    BuyInv id 65533 b s' × (match_buy_test id 65533 s' ≡ false)
buy_loop_lem_example =
    buy_loop_lem asks.pool_top 65533 (alloc buy_order asks).1 (omega arith)
      ((alloc buy_order asks).1, []) buy_start

bid_small : (alloc sell_order bids).1.bid_max < max_price
bid_small =
    omega (arith, alloc-scalars sell_order bids (omega (arith, bids_top)), bids-IsValid.uncrossed)

sell_loop_lem_example :
    let id = bids.pool_top in
    let b = (alloc sell_order bids).1 in
    let s' = while (match_fuel b) (match_sell_test id 65530) (match_sell_step id) (b, []) in
    SellInv id 65530 b s' × (match_sell_test id 65530 s' ≡ false)
sell_loop_lem_example =
    sell_loop_lem bids.pool_top 65530 (alloc sell_order bids).1 bid_small
      ((alloc sell_order bids).1, []) sell_start
