-- ===== src/MatchEngine/Limiting.antt =====
-- What `Limit` of matchengine/book.go guarantees.
use secwager.Prelude.{
  ℕ, ◌≢◌, [], arith, ◌<◌, ◌≡◌, suc, ◌∙◌, ◌==◌, Bool-cases, ap, inr, refl, inl, leb,
}
use secwager.MatchEngine.Types.{Order, OrderBook, max_orders, Side}
use secwager.MatchEngine.Book.{alloc}
use secwager.MatchEngine.Limit.{match_order, submit, limit}
use secwager.MatchEngine.Accounting.{IsAccounted, original, total_qty}
use secwager.MatchEngine.Validity.{
  IsOrder, IsValid, Entered, match_buy-Entered, match_sell-Entered, AtBest,
}
use secwager.MatchEngine.Resting.{alloc-Links}

pub alloc_slot :
    (o : Order) (b : OrderBook)
    → let slot = (alloc o b).1.pool b.pool_top in
      (slot.size ≡ o.size)
      × (slot.qty_filled ≡ 0)
      × (slot.fills ≡ [])
      × (slot.price ≡ o.price)
      × (slot.side ≡ o.side)
unfolding alloc
alloc_slot o b = ground arith

alloc_others :
    (o : Order) (b : OrderBook) (i : ℕ) → i ≢ b.pool_top → (alloc o b).1.pool i ≡ b.pool i
unfolding alloc
alloc_others o b i ne = ground arith

pub alloc-scalars :
    (o : Order) (b : OrderBook)
    → b.pool_top < max_orders
    → ((alloc o b).0 ≡ b.pool_top)
      × ((alloc o b).1.pool_top ≡ suc b.pool_top)
      × ((alloc o b).1.bid_max ≡ b.bid_max)
      × ((alloc o b).1.ask_min ≡ b.ask_min)
unfolding alloc
alloc-scalars o b room = ground arith

pub alloc-IsAccounted :
    (o : Order) (b : OrderBook)
    → IsOrder o
    → ((i : ℕ) → IsAccounted (b.pool i))
    → (i : ℕ) → IsAccounted ((alloc o b).1.pool i)
unfolding alloc
alloc-IsAccounted o b order all i = ground (arith, all i, order.size)

module _ (o : Order) (b : OrderBook) (order : IsOrder o) (valid : IsValid b) (pos : 0 < o.price)
    (room : b.pool_top < max_orders) where
  submit-Entered :
      (side : Side)
      → o.side ≡ side
      → Entered b.pool_top o (alloc o b).1 (match_order b.pool_top o side (alloc o b).1).0
  submit-Entered Side.buy is =
      let slot = alloc_slot o b in
      let scalars = alloc-scalars o b room in
      match_buy-Entered b.pool_top o (alloc o b).1 order (omega (arith, valid.top_pos)) (scalars.1)
        (alloc-Links o b valid.links) (alloc-IsAccounted o b order valid.accounts)
        (omega (arith, scalars, valid.uncrossed), omega (arith, scalars, valid.uncrossed)) slot.3
        slot.2 (slot.4 ∙ is) is
  submit-Entered Side.sell is =
      let slot = alloc_slot o b in
      let scalars = alloc-scalars o b room in
      match_sell-Entered b.pool_top o (alloc o b).1 order (omega (arith, valid.top_pos)) (scalars.1)
        (alloc-Links o b valid.links) (alloc-IsAccounted o b order valid.accounts)
        (omega (arith, scalars, valid.uncrossed), omega (arith, scalars, valid.uncrossed)) slot.3
        slot.2 pos (slot.4 ∙ is) is

  submitted : Entered b.pool_top o (alloc o b).1 (submit o b).1
  unfolding submit
  submitted =
      let id : (alloc o b).0 ≡ b.pool_top = (alloc-scalars o b room).0 in
      rw id (submit-Entered o.side refl)

  submit_id : (submit o b).0 ≡ b.pool_top
  unfolding submit alloc
  submit_id = refl

  submit-IsValid : IsValid (submit o b).1
  submit-IsValid =
      let e = submitted in
      record {
        top_pos = omega (arith, e.top);
        top_le = omega (arith, e.top);
        links = rw e.top e.links;
        accounts = λ i. (e.accounts i).0;
        uncrossed = e.uncrossed;
      }

  limit-submit : limit o b ≡ submit o b
  unfolding limit
  limit-submit = ground arith

  -- In a valid book with a free slot, an order with a positive price and fields of their Go types
  -- gets the next slot's id. Its filled and its remaining quantity make up its size, and no other
  -- slot's filled plus remaining quantity changes.
  pub limit_conserves :
      let (id, b', _) = limit o b in
      (id ≡ b.pool_top)
      × (original (b'.pool id) ≡ o.size)
      × ((i : ℕ) → i ≢ id → original (b'.pool i) ≡ original (b.pool i))
  limit_conserves =
      let e = submitted in
      let slot = alloc_slot o b in
      rw (limit-submit, submit_id)
        (
          refl,
          (e.accounts b.pool_top).1 ∙ omega (arith, slot),
          λ i ne. (e.accounts i).1 ∙ ap original (alloc_others o b i ne),
        )

  -- Under the same conditions, no fill of the order is at a worse price than its own limit, and
  -- its fills add up to the filled quantity of its slot.
  pub limit-AtBest :
      let (id, b', _) = limit o b in
      AtBest o.side o.price (b'.pool id).fills
      × (total_qty (b'.pool id).fills ≡ (b'.pool id).qty_filled)
  limit-AtBest =
      let e = submitted in rw (limit-submit, submit_id) (e.priced, (e.accounts b.pool_top).0.1)

-- `Limit` of an order with fields of their Go types keeps a valid book valid, on the branches
-- that reject the order too.
pub limit-IsValid : (o : Order) (b : OrderBook) → IsOrder o → IsValid b → IsValid (limit o b).1
unfolding limit
limit-IsValid o b order valid = elim (Bool-cases (o.price == 0)) [
  | inl e ↦ rw e valid
  | inr e ↦ rw e (elim (Bool-cases (leb max_orders b.pool_top)) [
    | inl f ↦ rw f valid
    | inr f ↦ rw f (submit-IsValid o b order valid (ground arith) (ground arith))
  ])
]
