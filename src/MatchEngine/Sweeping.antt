-- ===== src/MatchEngine/Sweeping.antt =====
-- The rounds of the matching loops of matchengine/book.go: what each keeps, and why each loop ends.
use secwager.Prelude.{ℕ, inl, suc, ◌<◌, ◌^◌, ◌==◌, inr, ◌≢◌, ◌⊎◌, Bool-cases, arith, ◌≡◌, ◌≤◌}
use secwager.MatchEngine.Types.{Side, Slot, Level, OrderBook, no_order, min32}
use secwager.MatchEngine.Book.{skip_inactive}
use secwager.MatchEngine.Matching.{
  trade, fill_head, Sweep, match_buy_step, match_sell_step, deactivate,
}
use secwager.MatchEngine.Links.{
  Points, Onward, Links, SameLinks, Links-SameLinks, Links-set_buy, Links-set_sell,
  skip_inactive_lem,
}

abbrev pub BookLinks : ℕ → OrderBook → Type 0
BookLinks n b = Links n b.pool b.buys b.sells

trade-SameLinks : (pool : ℕ → Slot) (id r : ℕ) → SameLinks pool (trade pool id r)
unfolding trade
trade-SameLinks pool id r i = ground arith

pub deactivate-SameLinks : (pool : ℕ → Slot) (i : ℕ) → SameLinks pool (deactivate pool i)
deactivate-SameLinks pool i j = ground arith

-- A fill of orders of fewer than 2^32 pieces uses one of the two up.
trade_uses_up :
    (pool : ℕ → Slot) (id r : ℕ)
    → id ≢ r
    → (pool id).size < 2 ^ 32
    → (pool r).size < 2 ^ 32
    → ((trade pool id r id).size ≡ 0) ⊎ ((trade pool id r r).size ≡ 0)
unfolding trade min32
trade_uses_up pool id r ne small small' = ground arith

-- A fill changes no link, price or side.
pub fill_head-SameLinks :
    (pool : ℕ → Slot) (id : ℕ) (lvl : Level) → SameLinks pool (fill_head pool id lvl).0
unfolding fill_head
fill_head-SameLinks pool id lvl i = ground (arith, trade-SameLinks pool id lvl.head i)

-- After a fill the level holds orders of its own still.
pub fill_head-Points :
    (pool : ℕ → Slot) (id n p : ℕ) (side : Side) (lvl : Level)
    → lvl.head ≢ no_order
    → Onward pool n lvl.head
    → Points pool n p side lvl.head
    → Points pool n p side lvl.tail
    → let (pool', lvl') = fill_head pool id lvl in
      Points pool n p side lvl'.head × Points pool n p side lvl'.tail
unfolding fill_head
fill_head-Points pool id n p side lvl ne on head tail =
    ground (arith, trade-SameLinks pool id lvl.head lvl.head)

-- The head goes up, or the incoming order is used up.
pub fill_head_moves :
    (pool : ℕ → Slot) (id n : ℕ) (lvl : Level)
    → id ≢ lvl.head
    → (pool id).size < 2 ^ 32
    → (pool lvl.head).size < 2 ^ 32
    → Onward pool n lvl.head
    → let (pool', lvl') = fill_head pool id lvl in
      (((pool' id).size ≡ 0) × (lvl'.head ≢ no_order → lvl.head ≤ lvl'.head))
      ⊎ (lvl'.head ≢ no_order → lvl.head < lvl'.head)
unfolding fill_head
fill_head_moves pool id n lvl ne small small' on = ground (
  arith,
  trade-SameLinks pool id lvl.head lvl.head,
  trade_uses_up pool id lvl.head ne small small',
)

module _ (id : ℕ) (s : Sweep) (l : BookLinks id s.0) (top : s.0.pool_top ≡ suc id) where
  -- A round of `matchBuy` keeps the links, whatever its branch.
  pub match_buy_step-Links : BookLinks id (match_buy_step id s).0
  unfolding match_buy_step
  match_buy_step-Links =
      let b = s.0 in
      let lvl = skip_inactive b (b.sells b.ask_min) in
      let skipped =
        skip_inactive_lem id b b.ask_min Side.sell (b.sells b.ask_min) l.onward (omega arith)
          (l.sell_head b.ask_min) (l.sell_tail b.ask_min) in
      elim (Bool-cases (lvl.head == no_order)) [
        | inl e ↦ rw e (Links-set_sell b.ask_min lvl l skipped.0 skipped.1)
        | inr e ↦ rw e (
            let filled =
              fill_head-Points b.pool id id b.ask_min Side.sell lvl (ground arith)
                (l.onward lvl.head) skipped.0 skipped.1 in
            Links-SameLinks (fill_head-SameLinks b.pool id lvl)
              (Links-set_sell b.ask_min _ l filled.0 filled.1))
      ]

  -- So does a round of `matchSell`.
  pub match_sell_step-Links : BookLinks id (match_sell_step id s).0
  unfolding match_sell_step
  match_sell_step-Links =
      let b = s.0 in
      let lvl = skip_inactive b (b.buys b.bid_max) in
      let skipped =
        skip_inactive_lem id b b.bid_max Side.buy (b.buys b.bid_max) l.onward (omega arith)
          (l.buy_head b.bid_max) (l.buy_tail b.bid_max) in
      elim (Bool-cases (lvl.head == no_order)) [
        | inl e ↦ rw e (Links-set_buy b.bid_max lvl l skipped.0 skipped.1)
        | inr e ↦ rw e (
            let filled =
              fill_head-Points b.pool id id b.bid_max Side.buy lvl (ground arith)
                (l.onward lvl.head) skipped.0 skipped.1 in
            Links-SameLinks (fill_head-SameLinks b.pool id lvl)
              (Links-set_buy b.bid_max _ l filled.0 filled.1))
      ]
