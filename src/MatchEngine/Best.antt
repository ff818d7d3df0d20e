-- ===== src/MatchEngine/Best.antt =====
-- `BestBid` and `BestAsk` of matchengine/book.go.
use secwager.MatchEngine.Links.{first_active-Reached, Points, first_active_ends}
use secwager.MatchEngine.Validity.{IsValid}
use secwager.Prelude.{
  ℕ, ◌==◌, Bool-cases, ◌<◌, inr, suc, refl, inl, zero, ◌+◌, ◌≡◌, ◌≤◌, ◌%◌, arith, ◌⊎◌, ◌≢◌, ◌-◌,
  true,
}
use secwager.MatchEngine.Types.{OrderBook, max_price, first_active, no_order, Level, Side}
use secwager.MatchEngine.Book.{best_bid_from, best_ask_from, best_ask, best_bid}

abbrev pub front : OrderBook → (ℕ → Level) → ℕ → ℕ
front b levels p = first_active b.pool_top b.pool (levels p).head

module _ (b : OrderBook) where
  best_bid_from_lem :
      (p : ℕ)
      → p < max_price
      → (best_bid_from b p ≤ p)
        × (best_bid_from b p ≢ 0 → front b b.buys (best_bid_from b p) ≢ no_order)
        × ((q : ℕ) → best_bid_from b p < q → q ≤ p → front b b.buys q ≡ no_order)
  unfolding best_bid_from
  best_bid_from_lem zero small =
      (omega arith, λ ne. absurd (omega arith), λ q above le. absurd (omega arith))
  best_bid_from_lem (suc p) small =
      let rest = best_bid_from_lem p (omega arith) in
      elim (Bool-cases (front b b.buys (suc p) == no_order)) [
        | inl e ↦
            rw (e, best_bid_from)
              (omega (arith, rest.0), rest.1, λ q above le. ground (arith, rest.2 q, e))
        | inr e ↦
            let same : suc p % 65536 ≡ suc p = omega arith in
            rw (e, best_bid_from)
              (rw same (omega arith, λ ne. ground (arith, e), λ q above le. absurd (omega arith)))
      ]

  best_ask_from_lem :
      (k p : ℕ)
      → p + k ≡ max_price
      → 0 < p
      → ((best_ask_from b k p ≡ 0)
          × ((q : ℕ) → p ≤ q → q < max_price → front b b.sells q ≡ no_order))
        ⊎ ((p ≤ best_ask_from b k p)
            × (best_ask_from b k p < max_price)
            × (front b b.sells (best_ask_from b k p) ≢ no_order)
            × ((q : ℕ) → p ≤ q → q < best_ask_from b k p → front b b.sells q ≡ no_order))
  unfolding best_ask_from
  best_ask_from_lem zero p e pos = inl (refl, λ q le below. absurd (omega arith))
  best_ask_from_lem (suc k) p e pos = elim (Bool-cases (front b b.sells p == no_order)) [
    | inl f ↦
        rw (f, best_ask_from)
          (elim (best_ask_from_lem k (p + 1) (omega arith) (omega arith)) [
            | inl (none_left, all) ↦ inl (none_left, λ q le below. ground (arith, f, all q))
            | inr (le, small, found, all) ↦
                inr (omega arith, small, found, λ q up below. ground (arith, f, all q))
          ])
    | inr f ↦
        let same : p % 65536 ≡ p = omega arith in
        rw (f, best_ask_from)
          (rw same
            (inr (omega arith, omega arith, ground (arith, f), λ q up below. absurd (omega arith))))
  ]

-- A live order of the price `p` on the side `side`.
abbrev pub LiveAt : OrderBook → ℕ → Side → ℕ → Type 0
LiveAt b p side r =
    (r ≢ no_order) × ((b.pool r).active ≡ true) × ((b.pool r).price ≡ p) × ((b.pool r).side ≡ side)

pub best_bid_le : (b : OrderBook) → b.bid_max < max_price → best_bid b ≤ b.bid_max
unfolding best_bid
best_bid_le b small = (best_bid_from_lem b b.bid_max small).0

pub best_ask_range :
    (b : OrderBook)
    → 0 < b.ask_min
    → b.ask_min ≤ max_price
    → (best_ask b ≡ 0) ⊎ ((b.ask_min ≤ best_ask b) × (best_ask b < max_price))
unfolding best_ask
best_ask_range b pos le =
    elim (best_ask_from_lem b (max_price - b.ask_min) b.ask_min (omega arith) pos) [
      | inl (e, _) ↦ inl e
      | inr (up, small, _, _) ↦ inr (up, small)
    ]

module _ (b : OrderBook) (valid : IsValid b) where
  front-LiveAt :
      (levels : ℕ → Level) (p : ℕ) (side : Side)
      → Points b.pool b.pool_top p side (levels p).head
      → front b levels p ≢ no_order
      → LiveAt b p side (front b levels p)
  front-LiveAt levels p side pt ne =
      let reached =
        first_active-Reached b.pool_top b.pool valid.links.onward b.pool_top p side (levels p).head
          pt in
      let stops =
        first_active_ends b.pool_top b.pool valid.links.onward b.pool_top (levels p).head
          (λ n. (pt n).0) (omega arith) in
      (ne, ground (arith, stops, ne), (reached.0 ne).1, (reached.0 ne).2)

  -- In a valid book the best bid, where there is one, is the price of an active buy order at the front
  -- of its level, and no level above it, up to the book's bound, has an active order.
  pub best_bid_lem :
      (best_bid b ≢ 0 → LiveAt b (best_bid b) Side.buy (front b b.buys (best_bid b)))
      × ((q : ℕ) → best_bid b < q → q ≤ b.bid_max → front b b.buys q ≡ no_order)
  unfolding best_bid
  best_bid_lem =
      let found = best_bid_from_lem b b.bid_max (omega (arith, valid.uncrossed)) in
      (λ ne. front-LiveAt b.buys _ Side.buy (valid.links.buy_head _) (found.1 ne), found.2)

  -- In a valid book the best ask, where there is one, is the price of an active sell order, and no
  -- level below it has an active order; where there is none, no level at all has, from the book's
  -- bound up.
  pub best_ask_lem :
      (best_ask b ≢ 0 → LiveAt b (best_ask b) Side.sell (front b b.sells (best_ask b)))
      × ((q : ℕ)
          → b.ask_min ≤ q
          → q < max_price
          → (best_ask b ≡ 0) ⊎ (q < best_ask b)
          → front b b.sells q ≡ no_order)
  unfolding best_ask
  best_ask_lem =
      elim (best_ask_from_lem b (max_price - b.ask_min) b.ask_min (omega (arith, valid.uncrossed))
        (omega (arith, valid.uncrossed))) [
          | inl (e, all) ↦ (λ ne. absurd (ne e), λ q up small _. all q up small)
          | inr (up, small, found, all) ↦ (
            λ _. front-LiveAt b.sells _ Side.sell (valid.links.sell_head _) found,
            λ q low high below. all q low (omega arith),
          )
        ]

  -- The best prices of a valid book do not cross.
  pub best_uncrossed : (best_ask b ≡ 0) ⊎ (best_bid b < best_ask b)
  best_uncrossed =
      let bid = best_bid_le b (omega (arith, valid.uncrossed)) in
      elim (best_ask_range b (omega (arith, valid.uncrossed)) valid.uncrossed.1) [
        | inl e ↦ inl e
        | inr (up, small) ↦ inr (omega (arith, valid.uncrossed))
      ]
