-- ===== src/MatchEngine/SellLoop.antt =====
-- The loop of `matchSell` in matchengine/book.go: its invariant, and that it ends by its test.
use secwager.MatchEngine.Measure.{fuel_enough, measure_level, measure, measure_drops, Nearer}
use secwager.Prelude.{
  ℕ, suc, ◌<◌, ◌≤◌, ◌-◌, ◌==◌, true, ◌≡◌, All, ◌∙◌, ◌≢◌, inl, ◌⊎◌, Bool-cases, ◌^◌, inr, arith,
  false, while-keeps, while, while_ends, sub32,
}
use secwager.MatchEngine.Types.{OrderBook, max_price, no_order, Side, Level}
use secwager.MatchEngine.Book.{skip_inactive}
use secwager.MatchEngine.Matching.{fill_head, Sweep, match_sell_test, match_sell_step, match_fuel}
use secwager.MatchEngine.Links.{SameLinks, skip_inactive_lem}
use secwager.MatchEngine.Sweeping.{
  fill_head-SameLinks, BookLinks, match_sell_step-Links, fill_head_moves,
}
use secwager.MatchEngine.Accounting.{KeepsAccount, fill_head-KeepsAccount, fill_head-All}

module _ (id price : ℕ) (start : OrderBook) where
  pub record SellInv (s : Sweep) : Type 0 where
    pub links : BookLinks id s.0
    pub top : s.0.pool_top ≡ suc id
    pub same : SameLinks start.pool s.0.pool
    pub accounts : (i : ℕ) → KeepsAccount start.pool s.0.pool i
    pub ask_min : s.0.ask_min ≡ start.ask_min
    pub bid_down : s.0.bid_max ≤ start.bid_max
    pub priced : All (λ m. price ≤ m.price) (s.0.pool id).fills

  abbrev sell_measure : Sweep → ℕ
  sell_measure s = measure s.0.bid_max id (s.0.buys s.0.bid_max).head (s.0.pool id).size

  module _ (s : Sweep) (inv : SellInv s) where
    abbrev level : Level
    level = skip_inactive s.0 (s.0.buys s.0.bid_max)

    -- The order at the head of the best level, where there is one: active, older than the incoming
    -- order, and at the level's price.
    resting :
        (level.head ≢ no_order → (level.head < id) × ((s.0.pool level.head).price ≡ s.0.bid_max))
        × (level.head ≢ no_order
            → ((s.0.buys s.0.bid_max).head ≢ no_order) × ((s.0.buys s.0.bid_max).head ≤ level.head))
    resting =
        let b = s.0 in
        let top = inv.top in
        let (head, tail, found) =
          skip_inactive_lem id b b.bid_max Side.buy (b.buys b.bid_max) inv.links.onward
            (omega arith) (inv.links.buy_head b.bid_max) (inv.links.buy_tail b.bid_max) in
        (λ ne. ((head ne).0, (head ne).1), λ ne. ((found ne).0, (found ne).1))

    step_pool :
        ((match_sell_step id s).0.pool ≡ s.0.pool)
        ⊎ ((level.head ≢ no_order)
            × ((match_sell_step id s).0.pool ≡ (fill_head s.0.pool id level).0))
    unfolding match_sell_step
    step_pool = elim (Bool-cases (level.head == no_order)) [
      | inl e ↦ inl (rw e)
      | inr e ↦ inr (ground arith, rw e)
    ]

    step_same : SameLinks start.pool (match_sell_step id s).0.pool
    step_same i = elim step_pool [
      | inl e ↦ rw e (inv.same i)
      | inr (_, e) ↦ rw e (
          let moved = fill_head-SameLinks s.0.pool id level i in
          let same = inv.same i in (moved.0 ∙ same.0, moved.1 ∙ same.1, moved.2 ∙ same.2))
    ]

    step_accounts : (i : ℕ) → KeepsAccount start.pool (match_sell_step id s).0.pool i
    step_accounts i = elim step_pool [
      | inl e ↦ rw e (inv.accounts i)
      | inr (ne, e) ↦ rw e (
          let older = (resting.0 ne).0 in
          let kept =
            fill_head-KeepsAccount s.0.pool id level i (ground arith) (λ j. (inv.accounts j).0) in
          (kept.0, kept.1 ∙ (inv.accounts i).1))
    ]

    step_priced :
        price ≤ s.0.bid_max → All (λ m. price ≤ m.price) ((match_sell_step id s).0.pool id).fills
    step_priced low = elim step_pool [
      | inl e ↦ rw e inv.priced
      | inr (ne, e) ↦ rw e (
          let older = (resting.0 ne).0 in
          let at = (resting.0 ne).1 in
          fill_head-All (λ p. price ≤ p) s.0.pool id level (ground arith) (omega arith) inv.priced)
    ]

    step_scalars :
        ((match_sell_step id s).0.pool_top ≡ s.0.pool_top)
        × ((match_sell_step id s).0.ask_min ≡ s.0.ask_min)
        × (((match_sell_step id s).0.bid_max ≡ s.0.bid_max)
            ⊎ ((match_sell_step id s).0.bid_max ≡ sub32 s.0.bid_max 1))
    unfolding match_sell_step
    step_scalars = ground arith

    -- A round takes the level away, moves its head on, or uses the incoming order up.
    step_moves :
        (k : ℕ)
        → s.0.bid_max ≡ suc k
        → k < 2 ^ 31
        → ((match_sell_step id s).0.bid_max ≡ k)
          ⊎ (((match_sell_step id s).0.bid_max ≡ s.0.bid_max)
              × Nearer id
                  (s.0.buys s.0.bid_max).head
                  ((match_sell_step id s).0.buys s.0.bid_max).head
                  ((match_sell_step id s).0.pool id).size)
    unfolding match_sell_step
    step_moves k pos low = elim (Bool-cases (level.head == no_order)) [
      | inl e ↦ rw e (inl (rw pos (omega arith)))
      | inr e ↦
          let ne : level.head ≢ no_order = ground (arith, e) in
          let older = (resting.0 ne).0 in
          let up = resting.1 ne in
          rw e (
            ground (
              arith,
              older,
              up,
              fill_head_moves s.0.pool id id level (ground arith)
                  (omega (arith, (inv.accounts id).0)) (omega (arith, (inv.accounts level.head).0))
                  (inv.links.onward level.head),
            ))
    ]

  step-SellInv :
      start.bid_max < max_price
      → (s : Sweep) → SellInv s
      → match_sell_test id price s ≡ true
      → SellInv (match_sell_step id s)
  step-SellInv small s inv test =
      let low : price ≤ s.0.bid_max = ground arith in
      record {
        links = match_sell_step-Links id s inv.links inv.top;
        top = omega (arith, step_scalars s inv, inv.top);
        same = step_same s inv;
        accounts = step_accounts s inv;
        ask_min = omega (arith, step_scalars s inv, inv.ask_min);
        bid_down = ground (arith, step_scalars s inv, inv.bid_down);
        priced = step_priced s inv low;
      }

  step_measure :
      start.bid_max < max_price
      → (s : Sweep) → SellInv s
      → match_sell_test id price s ≡ true
      → sell_measure (match_sell_step id s) < sell_measure s
  step_measure small s inv test =
      let low : price ≤ s.0.bid_max = ground arith in
      let live : (s.0.pool id).size ≢ 0 = ground arith in
      let k : ℕ = s.0.bid_max - 1 in
      let more : s.0.bid_max ≡ suc k = ground arith in
      elim (step_moves s inv k more (omega (arith, inv.bid_down))) [
        | inl e ↦ rw e (measure_level _ k id _ _ _ _ more live)
        | inr (e, nearer) ↦ rw e (measure_drops _ id _ _ _ _ live nearer)
      ]

  -- From a state that satisfies the invariant, and a book whose best bid is in range, the loop of
  -- `matchSell` on the fuel of the model ends in a state that satisfies it and in which the
  -- loop's test fails.
  pub sell_loop_lem :
      start.bid_max < max_price
      → (s : Sweep) → SellInv s
      → let s' = while (match_fuel s.0) (match_sell_test id price) (match_sell_step id) s in
        SellInv s' × (match_sell_test id price s' ≡ false)
  sell_loop_lem small s inv = (
    while-keeps SellInv (match_sell_test id price) (match_sell_step id) (step-SellInv small)
        (match_fuel s.0) s inv,
    while_ends SellInv (match_sell_test id price) (match_sell_step id) sell_measure
        (λ t i q. (step-SellInv small t i q, step_measure small t i q)) (match_fuel s.0) s
        (fuel_enough s.0.bid_max id _ _ s.0 (omega (arith, inv.bid_down)) inv.top) inv,
  )
