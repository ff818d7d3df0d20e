-- ===== src/MatchEngine/Resting.antt =====
-- An order that enters the book in matchengine/book.go: `alloc` before the matching, and what follows
-- the loop of `matchBuy` and `matchSell`.
use secwager.Prelude.{
  ℕ, suc, ◌≡◌, ◌≢◌, ltb, arith, refl, ◌∙◌, inl, Bool-cases, inr, false, ◌<◌, ◌≤◌,
}
use secwager.MatchEngine.Types.{Order, OrderBook, Side, Slot, Level, no_order}
use secwager.MatchEngine.Book.{alloc, enqueue}
use secwager.MatchEngine.Matching.{Sweep, rest_buy, rest_sell, match_buy_test, match_sell_test}
use secwager.MatchEngine.Links.{Points, Links, enqueue-Links, Links-SameLinks}
use secwager.MatchEngine.Sweeping.{BookLinks, deactivate-SameLinks}
use secwager.MatchEngine.Accounting.{IsAccounted, KeepsAccount}

-- Two pools with the same prices and sides.
abbrev SamePrices : (ℕ → Slot) → (ℕ → Slot) → Type 0
SamePrices pool pool' =
    (i : ℕ) → ((pool' i).price ≡ (pool i).price) × ((pool' i).side ≡ (pool i).side)

Points-suc :
    (pool pool' : ℕ → Slot) {n p : ℕ} {side : Side} {h : ℕ}
    → SamePrices pool pool'
    → Points pool n p side h
    → Points pool' (suc n) p side h
Points-suc pool pool' {h} same pt ne =
    (omega (arith, (pt ne).0), (same h).0 ∙ (pt ne).1, (same h).1 ∙ (pt ne).2)

enqueue-SamePrices :
    (pool : ℕ → Slot) (lvl : Level) (id : ℕ) → SamePrices pool (enqueue pool lvl id).0
unfolding enqueue
enqueue-SamePrices pool lvl id i = ground arith

-- Links to ids below `n` are links to ids below `suc n`.
Links-suc :
    {n : ℕ} {pool : ℕ → Slot} {buys sells : ℕ → Level}
    → Links n pool buys sells
    → Links (suc n) pool buys sells
Links-suc {n} {pool} l = record {
  buy_head = λ p. Points-suc pool pool (λ i. (refl, refl)) (l.buy_head p);
  buy_tail = λ p. Points-suc pool pool (λ i. (refl, refl)) (l.buy_tail p);
  sell_head = λ p. Points-suc pool pool (λ i. (refl, refl)) (l.sell_head p);
  sell_tail = λ p. Points-suc pool pool (λ i. (refl, refl)) (l.sell_tail p);
  onward = λ i. (Points-suc pool pool (λ i. (refl, refl)) (l.onward i).0, (l.onward i).1);
}

-- The new slot is in no chain.
pub alloc-Links :
    (o : Order) (b : OrderBook) → BookLinks b.pool_top b → BookLinks b.pool_top (alloc o b).1
unfolding alloc
alloc-Links o b l = record {
  buy_head = λ p. ground (arith, l.buy_head p);
  buy_tail = λ p. ground (arith, l.buy_tail p);
  sell_head = λ p. ground (arith, l.sell_head p);
  sell_tail = λ p. ground (arith, l.sell_tail p);
  onward = λ i. ground (arith, l.onward i);
}

module _ (id : ℕ) (o : Order) (s : Sweep) (l : BookLinks id s.0) (new : id ≢ no_order)
    (price : (s.0.pool id).price ≡ o.price) where
  pub rest_buy-Links : (s.0.pool id).side ≡ Side.buy → BookLinks (suc id) (rest_buy id o s).0
  unfolding rest_buy
  rest_buy-Links side =
      let b = s.0 in
      let queued =
        enqueue-Links b.pool (b.buys o.price) id o.price Side.buy l.onward new price side
          (l.buy_head o.price) (l.buy_tail o.price) in
      let pool' = (enqueue b.pool (b.buys o.price) id).0 in
      let same = enqueue-SamePrices b.pool (b.buys o.price) id in
      elim (Bool-cases (ltb 0 (b.pool id).size)) [
        | inl e ↦ rw e (record {
          buy_head = λ p. ground (arith, queued.0, Points-suc b.pool pool' same (l.buy_head p));
          buy_tail = λ p. ground (arith, queued.1, Points-suc b.pool pool' same (l.buy_tail p));
          sell_head = λ p. Points-suc b.pool pool' same (l.sell_head p);
          sell_tail = λ p. Points-suc b.pool pool' same (l.sell_tail p);
          onward = queued.2;
        })
        | inr e ↦ rw e (Links-SameLinks (deactivate-SameLinks b.pool id) (Links-suc l))
      ]

  pub rest_sell-Links : (s.0.pool id).side ≡ Side.sell → BookLinks (suc id) (rest_sell id o s).0
  unfolding rest_sell
  rest_sell-Links side =
      let b = s.0 in
      let queued =
        enqueue-Links b.pool (b.sells o.price) id o.price Side.sell l.onward new price side
          (l.sell_head o.price) (l.sell_tail o.price) in
      let pool' = (enqueue b.pool (b.sells o.price) id).0 in
      let same = enqueue-SamePrices b.pool (b.sells o.price) id in
      elim (Bool-cases (ltb 0 (b.pool id).size)) [
        | inl e ↦ rw e (record {
          buy_head = λ p. Points-suc b.pool pool' same (l.buy_head p);
          buy_tail = λ p. Points-suc b.pool pool' same (l.buy_tail p);
          sell_head = λ p. ground (arith, queued.0, Points-suc b.pool pool' same (l.sell_head p));
          sell_tail = λ p. ground (arith, queued.1, Points-suc b.pool pool' same (l.sell_tail p));
          onward = queued.2;
        })
        | inr e ↦ rw e (Links-SameLinks (deactivate-SameLinks b.pool id) (Links-suc l))
      ]

-- Resting changes no order's quantities or fills.
pub rest_buy-account :
    (id : ℕ) (o : Order) (s : Sweep) (i : ℕ)
    → IsAccounted (s.0.pool i)
    → KeepsAccount s.0.pool (rest_buy id o s).0.pool i
      × (((rest_buy id o s).0.pool i).fills ≡ (s.0.pool i).fills)
unfolding rest_buy enqueue
rest_buy-account id o s i h = ground arith

pub rest_sell-account :
    (id : ℕ) (o : Order) (s : Sweep) (i : ℕ)
    → IsAccounted (s.0.pool i)
    → KeepsAccount s.0.pool (rest_sell id o s).0.pool i
      × (((rest_sell id o s).0.pool i).fills ≡ (s.0.pool i).fills)
unfolding rest_sell enqueue
rest_sell-account id o s i h = ground arith

-- Nor the pool's size, and the book stays uncrossed behind the loop's test.
pub rest_buy_scalars :
    (id : ℕ) (o : Order) (s : Sweep)
    → match_buy_test id o.price s ≡ false
    → s.0.bid_max < s.0.ask_min
    → ((rest_buy id o s).0.pool_top ≡ s.0.pool_top)
      × ((rest_buy id o s).0.ask_min ≡ s.0.ask_min)
      × ((rest_buy id o s).0.bid_max < s.0.ask_min)
unfolding rest_buy
rest_buy_scalars id o s done below = ground arith

pub rest_sell_scalars :
    (id : ℕ) (o : Order) (s : Sweep)
    → match_sell_test id o.price s ≡ false
    → 0 < o.price
    → s.0.bid_max < s.0.ask_min
    → ((rest_sell id o s).0.pool_top ≡ s.0.pool_top)
      × ((rest_sell id o s).0.bid_max ≡ s.0.bid_max)
      × ((rest_sell id o s).0.ask_min ≤ s.0.ask_min)
      × (s.0.bid_max < (rest_sell id o s).0.ask_min)
unfolding rest_sell
rest_sell_scalars id o s done pos below = ground arith
