-- ===== src/MatchEngine/Validity.antt =====
-- What every book of matchengine/book.go is like, and that `Limit` keeps it so.
use secwager.MatchEngine.Resting.{
  rest_buy_scalars, rest_sell_scalars, rest_buy-account, rest_sell-account, rest_sell-Links,
  rest_buy-Links,
}
use secwager.MatchEngine.BuyLoop.{buy_loop_lem}
use secwager.MatchEngine.SellLoop.{sell_loop_lem}
use secwager.MatchEngine.Matching.{
  match_buy, match_sell, match_fuel, match_buy_test, match_sell_test, match_buy_step,
  match_sell_step,
}
use secwager.Prelude.{ℕ, ◌<◌, ◌≤◌, ◌^◌, refl, arith, while, ◌∙◌, suc, ◌≢◌, [], ◌≡◌, All, List}
use secwager.MatchEngine.Types.{Order, OrderBook, max_price, max_orders, Side, no_order, Match}
use secwager.MatchEngine.Sweeping.{BookLinks}
use secwager.MatchEngine.Accounting.{IsAccounted, KeepsAccount}

-- An order with fields of their Go types.
pub record IsOrder (o : Order) : Type 0 where
  pub price : o.price < max_price
  pub size : o.size < 2 ^ 32

-- The best bid stands below the best ask, and the ask's bound is in range.
abbrev pub IsUncrossed : OrderBook → Type 0
IsUncrossed b = (b.bid_max < b.ask_min) × (b.ask_min ≤ max_price)

pub record IsValid (b : OrderBook) : Type 0 where
  pub top_pos : 0 < b.pool_top
  pub top_le : b.pool_top ≤ max_orders
  pub links : BookLinks b.pool_top b
  pub accounts : (i : ℕ) → IsAccounted (b.pool i)
  pub uncrossed : IsUncrossed b

-- The prices of an order's fills are no worse than its own.
abbrev pub AtBest : Side → ℕ → List Match → Type 0
AtBest Side.buy price ms = All (λ m. m.price ≤ price) ms
AtBest Side.sell price ms = All (λ m. price ≤ m.price) ms

-- What the matching of the new order `id` has made of the book `b` that it was entered in.
pub record Entered (id : ℕ) (o : Order) (b b' : OrderBook) : Type 0 where
  pub top : b'.pool_top ≡ suc id
  pub links : BookLinks (suc id) b'
  pub accounts : (i : ℕ) → KeepsAccount b.pool b'.pool i
  pub uncrossed : IsUncrossed b'
  pub priced : AtBest o.side o.price (b'.pool id).fills

module _ (id : ℕ) (o : Order) (b : OrderBook) (order : IsOrder o) (new : id ≢ no_order)
    (top : b.pool_top ≡ suc id) (links : BookLinks id b) (all : (i : ℕ) → IsAccounted (b.pool i))
    (uncrossed : IsUncrossed b) (price : (b.pool id).price ≡ o.price)
    (fresh : (b.pool id).fills ≡ []) where
  pub match_buy-Entered :
      (b.pool id).side ≡ Side.buy → (o.side ≡ Side.buy) → Entered id o b (match_buy id o (b, [])).0
  unfolding match_buy
  match_buy-Entered side is =
      let (inv, done) =
        buy_loop_lem id o.price b order.price (b, [])
          (record {
            links = links;
            top = top;
            same = λ i. (refl, refl, refl);
            accounts = λ i. (all i, refl);
            bid_max = refl;
            ask_up = omega arith;
            ask_le = uncrossed.1;
            priced = rw fresh tt;
          }) in
      let s = while (match_fuel b) (match_buy_test id o.price) (match_buy_step id) (b, []) in
      let scalars = rest_buy_scalars id o s done (omega (arith, inv.bid_max, inv.ask_up)) in
      let rested = λ (i : ℕ). rest_buy-account id o s i (inv.accounts i).0 in
      record {
        top = scalars.0 ∙ inv.top;
        links =
            rest_buy-Links id o s inv.links new ((inv.same id).1 ∙ price) ((inv.same id).2 ∙ side);
        accounts = λ i. ((rested i).0.0, (rested i).0.1 ∙ (inv.accounts i).1);
        uncrossed = (omega (arith, scalars), omega (arith, scalars, inv.ask_le));
        priced = rw (rested id).1 (rw is inv.priced);
      }

  pub match_sell-Entered :
      0 < o.price
      → (b.pool id).side ≡ Side.sell
      → (o.side ≡ Side.sell)
      → Entered id o b (match_sell id o (b, [])).0
  unfolding match_sell
  match_sell-Entered pos side is =
      let (inv, done) =
        sell_loop_lem id o.price b (omega arith) (b, [])
          (record {
            links = links;
            top = top;
            same = λ i. (refl, refl, refl);
            accounts = λ i. (all i, refl);
            ask_min = refl;
            bid_down = omega arith;
            priced = rw fresh tt;
          }) in
      let s = while (match_fuel b) (match_sell_test id o.price) (match_sell_step id) (b, []) in
      let scalars = rest_sell_scalars id o s done pos (omega (arith, inv.ask_min, inv.bid_down)) in
      let rested = λ (i : ℕ). rest_sell-account id o s i (inv.accounts i).0 in
      record {
        top = scalars.0 ∙ inv.top;
        links =
            rest_sell-Links id o s inv.links new ((inv.same id).1 ∙ price) ((inv.same id).2 ∙ side);
        accounts = λ i. ((rested i).0.0, (rested i).0.1 ∙ (inv.accounts i).1);
        uncrossed = (omega (arith, scalars), omega (arith, scalars, inv.ask_min));
        priced = rw (rested id).1 (rw is inv.priced);
      }
