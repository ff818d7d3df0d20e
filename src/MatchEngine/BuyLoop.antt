-- ===== src/MatchEngine/BuyLoop.antt =====
-- The loop of `matchBuy` in matchengine/book.go: its invariant, and that it ends by its test.
use secwager.MatchEngine.Measure.{fuel_enough, measure_level, measure, measure_drops, Nearer}
use secwager.Prelude.{
  ℕ, suc, ◌<◌, ◌+◌, ◌≤◌, ◌-◌, ◌==◌, true, ◌≡◌, All, ◌∙◌, ◌≢◌, inl, ◌⊎◌, Bool-cases, add32, ◌^◌, inr,
  arith, false, while-keeps, while, while_ends,
}
use secwager.MatchEngine.Types.{OrderBook, max_price, no_order, Side, Level}
use secwager.MatchEngine.Book.{skip_inactive}
use secwager.MatchEngine.Matching.{fill_head, Sweep, match_buy_test, match_buy_step, match_fuel}
use secwager.MatchEngine.Links.{SameLinks, skip_inactive_lem}
use secwager.MatchEngine.Sweeping.{
  fill_head-SameLinks, BookLinks, match_buy_step-Links, fill_head_moves,
}
use secwager.MatchEngine.Accounting.{KeepsAccount, fill_head-KeepsAccount, fill_head-All}

module _ (id price : ℕ) (start : OrderBook) where
  pub record BuyInv (s : Sweep) : Type 0 where
    pub links : BookLinks id s.0
    pub top : s.0.pool_top ≡ suc id
    pub same : SameLinks start.pool s.0.pool
    pub accounts : (i : ℕ) → KeepsAccount start.pool s.0.pool i
    pub bid_max : s.0.bid_max ≡ start.bid_max
    pub ask_up : start.ask_min ≤ s.0.ask_min
    pub ask_le : s.0.ask_min ≤ max_price
    pub priced : All (λ m. m.price ≤ price) (s.0.pool id).fills

  abbrev buy_measure : Sweep → ℕ
  buy_measure s =
      measure (suc price - s.0.ask_min) id (s.0.sells s.0.ask_min).head (s.0.pool id).size

  module _ (s : Sweep) (inv : BuyInv s) where
    abbrev level : Level
    level = skip_inactive s.0 (s.0.sells s.0.ask_min)

    -- The order at the head of the best level, where there is one: active, older than the incoming
    -- order, and at the level's price.
    resting :
        (level.head ≢ no_order → (level.head < id) × ((s.0.pool level.head).price ≡ s.0.ask_min))
        × (level.head ≢ no_order
            → ((s.0.sells s.0.ask_min).head ≢ no_order)
              × ((s.0.sells s.0.ask_min).head ≤ level.head))
    resting =
        let b = s.0 in
        let top = inv.top in
        let (head, tail, found) =
          skip_inactive_lem id b b.ask_min Side.sell (b.sells b.ask_min) inv.links.onward
            (omega arith) (inv.links.sell_head b.ask_min) (inv.links.sell_tail b.ask_min) in
        (λ ne. ((head ne).0, (head ne).1), λ ne. ((found ne).0, (found ne).1))

    step_pool :
        ((match_buy_step id s).0.pool ≡ s.0.pool)
        ⊎ ((level.head ≢ no_order)
            × ((match_buy_step id s).0.pool ≡ (fill_head s.0.pool id level).0))
    unfolding match_buy_step
    step_pool = elim (Bool-cases (level.head == no_order)) [
      | inl e ↦ inl (rw e)
      | inr e ↦ inr (ground arith, rw e)
    ]

    step_same : SameLinks start.pool (match_buy_step id s).0.pool
    step_same i = elim step_pool [
      | inl e ↦ rw e (inv.same i)
      | inr (_, e) ↦ rw e (
          let moved = fill_head-SameLinks s.0.pool id level i in
          let same = inv.same i in (moved.0 ∙ same.0, moved.1 ∙ same.1, moved.2 ∙ same.2))
    ]

    step_accounts : (i : ℕ) → KeepsAccount start.pool (match_buy_step id s).0.pool i
    step_accounts i = elim step_pool [
      | inl e ↦ rw e (inv.accounts i)
      | inr (ne, e) ↦ rw e (
          let older = (resting.0 ne).0 in
          let kept =
            fill_head-KeepsAccount s.0.pool id level i (ground arith) (λ j. (inv.accounts j).0) in
          (kept.0, kept.1 ∙ (inv.accounts i).1))
    ]

    step_priced :
        s.0.ask_min ≤ price → All (λ m. m.price ≤ price) ((match_buy_step id s).0.pool id).fills
    step_priced low = elim step_pool [
      | inl e ↦ rw e inv.priced
      | inr (ne, e) ↦ rw e (
          let older = (resting.0 ne).0 in
          let at = (resting.0 ne).1 in
          fill_head-All (λ p. p ≤ price) s.0.pool id level (ground arith) (omega arith) inv.priced)
    ]

    step_scalars :
        ((match_buy_step id s).0.pool_top ≡ s.0.pool_top)
        × ((match_buy_step id s).0.bid_max ≡ s.0.bid_max)
        × (((match_buy_step id s).0.ask_min ≡ s.0.ask_min)
            ⊎ ((match_buy_step id s).0.ask_min ≡ add32 s.0.ask_min 1))
    unfolding match_buy_step
    step_scalars = ground arith

    -- A round takes the level away, moves its head on, or uses the incoming order up.
    step_moves :
        s.0.ask_min < 2 ^ 31
        → ((match_buy_step id s).0.ask_min ≡ s.0.ask_min + 1)
          ⊎ (((match_buy_step id s).0.ask_min ≡ s.0.ask_min)
              × Nearer id
                  (s.0.sells s.0.ask_min).head
                  ((match_buy_step id s).0.sells s.0.ask_min).head
                  ((match_buy_step id s).0.pool id).size)
    unfolding match_buy_step
    step_moves low = elim (Bool-cases (level.head == no_order)) [
      | inl e ↦ rw e (inl (omega arith))
      | inr e ↦
          let ne : level.head ≢ no_order = ground (arith, e) in
          let older = (resting.0 ne).0 in
          let up = resting.1 ne in
          rw e (
            ground (
              arith,
              older,
              up,
              fill_head_moves s.0.pool id id level (ground arith)
                  (omega (arith, (inv.accounts id).0)) (omega (arith, (inv.accounts level.head).0))
                  (inv.links.onward level.head),
            ))
    ]

  step-BuyInv :
      price < max_price
      → (s : Sweep) → BuyInv s
      → match_buy_test id price s ≡ true
      → BuyInv (match_buy_step id s)
  step-BuyInv small s inv test =
      let low : s.0.ask_min ≤ price = ground arith in
      record {
        links = match_buy_step-Links id s inv.links inv.top;
        top = omega (arith, step_scalars s inv, inv.top);
        same = step_same s inv;
        accounts = step_accounts s inv;
        bid_max = omega (arith, step_scalars s inv, inv.bid_max);
        ask_up = omega (arith, step_scalars s inv, inv.ask_up);
        ask_le = omega (arith, step_scalars s inv);
        priced = step_priced s inv low;
      }

  step_measure :
      price < max_price
      → (s : Sweep) → BuyInv s
      → match_buy_test id price s ≡ true
      → buy_measure (match_buy_step id s) < buy_measure s
  step_measure small s inv test =
      let low : s.0.ask_min ≤ price = ground arith in
      let live : (s.0.pool id).size ≢ 0 = ground arith in
      let k : ℕ = price - s.0.ask_min in
      let more : suc price - s.0.ask_min ≡ suc k = omega arith in
      let next : suc price - (s.0.ask_min + 1) ≡ k = omega arith in
      elim (step_moves s inv (omega arith)) [
        | inl e ↦ rw (e, next) (measure_level _ k id _ _ _ _ more live)
        | inr (e, nearer) ↦ rw e (measure_drops _ id _ _ _ _ live nearer)
      ]

  -- From a state that satisfies the invariant, and at a price in range, the loop of `matchBuy` on
  -- the fuel of the model ends in a state that satisfies it and in which the loop's test fails.
  pub buy_loop_lem :
      price < max_price
      → (s : Sweep) → BuyInv s
      → let s' = while (match_fuel s.0) (match_buy_test id price) (match_buy_step id) s in
        BuyInv s' × (match_buy_test id price s' ≡ false)
  buy_loop_lem small s inv = (
    while-keeps BuyInv (match_buy_test id price) (match_buy_step id) (step-BuyInv small)
        (match_fuel s.0) s inv,
    while_ends BuyInv (match_buy_test id price) (match_buy_step id) buy_measure
        (λ t i q. (step-BuyInv small t i q, step_measure small t i q)) (match_fuel s.0) s
        (fuel_enough (suc price - s.0.ask_min) id _ _ s.0 (omega arith) inv.top) inv,
  )
