-- ===== src/MatchEngine/Cancelling.antt =====
-- What `Cancel` of matchengine/book.go guarantees.
use secwager.Prelude.{
  ◌≤◌, ◌==◌, ==_iff, Bool-cases, ℕ, ◌∷◌, inl, refl, ◌≡◌, true, ◌<◌, [], arith, inr, false, ◌≢◌, ◌⊎◌,
}
use secwager.MatchEngine.Types.{no_order, max_price, Side, OrderBook, Slot, RejectReason}
use secwager.MatchEngine.Book.{best_ask}
use secwager.MatchEngine.Cancel.{clear_slot, rescan, cancel, reject_cancel}
use secwager.MatchEngine.Links.{Links-SameLinks}
use secwager.MatchEngine.Validity.{IsValid, IsUncrossed}
use secwager.MatchEngine.Best.{
  LiveAt, front, best_bid_lem, best_ask_lem, best_bid_le, best_ask_range,
}

clear_slot-IsValid : (b : OrderBook) (id : ℕ) → IsValid b → IsValid (clear_slot b id)
clear_slot-IsValid b id valid = record {
  top_pos = valid.top_pos;
  top_le = valid.top_le;
  links = Links-SameLinks (λ i. ground arith) valid.links;
  accounts = λ i. ground (arith, valid.accounts i);
  uncrossed = valid.uncrossed;
}

-- Looking for the best price again moves the bounds outwards, and nothing else.
rescan_lem :
    (b : OrderBook) (slot : Slot)
    → IsUncrossed b
    → let b' = rescan b slot in
      IsUncrossed b'
      × (b'.pool ≡ b.pool)
      × (b'.pool_top ≡ b.pool_top)
      × (b'.buys ≡ b.buys)
      × (b'.sells ≡ b.sells)
unfolding rescan
rescan_lem b slot un =
    let bid = best_bid_le b (omega arith) in
    let ask = best_ask_range b (omega arith) un.1 in
    (ground (arith, bid, ask), ground arith, ground arith, ground arith, ground arith)

rescan-IsValid : (b : OrderBook) (slot : Slot) → IsValid b → IsValid (rescan b slot)
rescan-IsValid b slot valid =
    let (un, pool, top, buys, sells) = rescan_lem b slot valid.uncrossed in
    record {
      top_pos = rw top valid.top_pos;
      top_le = rw top valid.top_le;
      links = rw (pool, top, buys, sells) valid.links;
      accounts = rw pool valid.accounts;
      uncrossed = un;
    }

-- The bid's bound is the price of a live buy order at the front of its level, or 0, and no level above
-- it, up to `high`, has a live order.
abbrev pub HasBid : OrderBook → ℕ → Type 0
HasBid b high =
    (b.bid_max ≢ 0 → LiveAt b b.bid_max Side.buy (front b b.buys b.bid_max))
    × ((q : ℕ) → b.bid_max < q → q ≤ high → front b b.buys q ≡ no_order)

-- The ask's bound is the price of a live sell order at the front of its level, or the largest price, and
-- no level below it, from `low` up, has a live order.
abbrev pub HasAsk : OrderBook → ℕ → Type 0
HasAsk b low =
    (b.ask_min ≢ max_price → LiveAt b b.ask_min Side.sell (front b b.sells b.ask_min))
    × ((q : ℕ) → low ≤ q → q < b.ask_min → front b b.sells q ≡ no_order)

rescan_buy :
    (b : OrderBook) (slot : Slot)
    → IsValid b
    → slot.side ≡ Side.buy
    → let b' = rescan b slot in
      (b'.ask_min ≡ b.ask_min)
      × (slot.price ≢ b.bid_max → b'.bid_max ≡ b.bid_max)
      × (slot.price ≡ b.bid_max → HasBid b' b.bid_max)
unfolding rescan
rescan_buy b slot valid side = elim (Bool-cases (slot.price == b.bid_max)) [
  | inl e ↦
      rw (side, e, rescan)
        (refl, λ ne. absurd (ne ((==_iff slot.price b.bid_max).0 e)), λ _. best_bid_lem b valid)
  | inr e ↦ rw (side, e, rescan) (refl, λ _. refl, λ same. ground (arith, e, same))
]

rescan_sell :
    (b : OrderBook) (slot : Slot)
    → IsValid b
    → slot.side ≡ Side.sell
    → let b' = rescan b slot in (b'.bid_max ≡ b.bid_max) × HasAsk b' b.ask_min
unfolding rescan
rescan_sell b slot valid side =
    let (live, dead) = best_ask_lem b valid in
    elim (Bool-cases (best_ask b == 0)) [
      | inl e ↦
          let gone : best_ask b ≡ 0 = (==_iff (best_ask b) 0).0 e in
          rw (side, e, rescan)
            (refl, (λ ne. absurd (ne refl), λ q low below. dead q low below (inl gone)))
      | inr e ↦
          let here : best_ask b ≢ 0 = λ gone. ground (arith, e, gone) in
          let range = best_ask_range b (omega (arith, valid.uncrossed)) valid.uncrossed.1 in
          rw (side, e, rescan)
            (
              refl,
              (
                λ _. live here,
                λ q low below. dead q low (omega (arith, range, here, below)) (inr below),
              ),
            )
    ]

cancel-cases :
    (id : ℕ) (b : OrderBook)
    → ((cancel id b).0 ≡ b) ⊎ ((cancel id b).0 ≡ rescan (clear_slot b id) (b.pool id))
unfolding cancel
cancel-cases id b = ground arith

-- `Cancel` keeps a book valid, on every branch.
pub cancel-IsValid : (id : ℕ) (b : OrderBook) → IsValid b → IsValid (cancel id b).0
cancel-IsValid id b valid = elim (cancel-cases id b) [
  | inl e ↦ rw e valid
  | inr e ↦ rw e (rescan-IsValid (clear_slot b id) (b.pool id) (clear_slot-IsValid b id valid))
]

cancel_dead :
    (id : ℕ) (b : OrderBook)
    → 0 < id
    → id < b.pool_top
    → (b.pool id).active ≡ false
    → (b.pool id).size ≡ 0
    → cancel id b ≡ (b, reject_cancel id RejectReason.already_filled ∷ [])
unfolding cancel
cancel_dead id b known below dead gone = ground arith

module _ (id : ℕ) (b : OrderBook) (valid : IsValid b) (known : 0 < id) (below : id < b.pool_top)
    (live : (b.pool id).active ≡ true) where
  cancelled : (cancel id b).0 ≡ rescan (clear_slot b id) (b.pool id)
  unfolding cancel
  cancelled = ground arith

  -- In a valid book, a live order that is cancelled is dead, with nothing remaining; every other
  -- slot, every level and the number of slots stay as they were. If it was a buy order, the ask's bound
  -- stays, and so does the bid's, unless it is the order's price: then it moves to the price of a live
  -- buy order at the front of its level, or to 0, and no level from there up to the old bound has a live
  -- order left. If it was a sell order, the bid's bound stays, and the ask's moves to the price of a live
  -- sell order at the front of its level, or to the largest price, and no level from the old bound up to
  -- there has a live order left.
  pub cancel_lem :
      let b' = (cancel id b).0 in
      ((b'.pool id).active ≡ false)
      × ((b'.pool id).size ≡ 0)
      × ((i : ℕ) → i ≢ id → b'.pool i ≡ b.pool i)
      × (b'.buys ≡ b.buys)
      × (b'.sells ≡ b.sells)
      × (b'.pool_top ≡ b.pool_top)
      × ((b.pool id).side ≡ Side.buy
          → (b'.ask_min ≡ b.ask_min)
            × ((b.pool id).price ≢ b.bid_max → b'.bid_max ≡ b.bid_max)
            × ((b.pool id).price ≡ b.bid_max → HasBid b' b.bid_max))
      × ((b.pool id).side ≡ Side.sell → (b'.bid_max ≡ b.bid_max) × HasAsk b' b.ask_min)
  cancel_lem =
      let c = clear_slot b id in
      let still = clear_slot-IsValid b id valid in
      let (un, pool, top, buys, sells) = rescan_lem c (b.pool id) valid.uncrossed in
      rw cancelled (
        rw pool (ground arith),
        rw pool (ground arith),
        λ i ne. rw pool (ground arith),
        buys,
        sells,
        top,
        rescan_buy c (b.pool id) still,
        rescan_sell c (b.pool id) still,
      )

  -- In a valid book, cancelling a live order a second time is rejected as already filled, and
  -- leaves the book alone.
  pub cancel_twice :
      let b' = (cancel id b).0 in
      cancel id b' ≡ (b', reject_cancel id RejectReason.already_filled ∷ [])
  cancel_twice =
      let (dead, gone, _, _, _, top, _, _) = cancel_lem in
      cancel_dead id (cancel id b).0 known (rw top below) dead gone
