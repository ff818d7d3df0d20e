-- ===== src/MatchEngine/Links.antt =====
-- How the order ids hang together: every pointer of a level or a slot leads to an older bound, to an
-- order of that level's price and side, and along a chain the ids grow.
use secwager.MatchEngine.Book.{skip_inactive, enqueue}
use secwager.Prelude.{
  ℕ, zero, ◌+◌, ◌≡◌, true, arith, ◌≤◌, ◌≢◌, ◌∙◌, suc, ◌⊎◌, ◌<◌, refl, ◌||◌, inr, Bool-cases, inl,
  ◌==◌, update,
}
use secwager.MatchEngine.Types.{Side, Slot, Level, first_active, no_order, OrderBook}

-- `h` is no order, or one below `n` at the price `p` on the side `side`.
abbrev pub Points : (ℕ → Slot) → ℕ → ℕ → Side → ℕ → Type 0
Points pool n p side h = h ≢ no_order → (h < n) × ((pool h).price ≡ p) × ((pool h).side ≡ side)

-- The order after `i` is younger, and stands at the same price on the same side.
abbrev pub Onward : (ℕ → Slot) → ℕ → ℕ → Type 0
Onward pool n i =
    Points pool n (pool i).price (pool i).side (pool i).next
    × ((pool i).next ≢ no_order → i < (pool i).next)

pub record Links (n : ℕ) (pool : ℕ → Slot) (buys sells : ℕ → Level) : Type 0 where
  pub buy_head : (p : ℕ) → Points pool n p Side.buy (buys p).head
  pub buy_tail : (p : ℕ) → Points pool n p Side.buy (buys p).tail
  pub sell_head : (p : ℕ) → Points pool n p Side.sell (sells p).head
  pub sell_tail : (p : ℕ) → Points pool n p Side.sell (sells p).tail
  pub onward : (i : ℕ) → Onward pool n i

-- Two pools with the same links, prices and sides.
abbrev pub SameLinks : (ℕ → Slot) → (ℕ → Slot) → Type 0
SameLinks pool pool' =
    (i : ℕ)
    → ((pool' i).next ≡ (pool i).next)
      × ((pool' i).price ≡ (pool i).price)
      × ((pool' i).side ≡ (pool i).side)

pub Points-SameLinks :
    (pool pool' : ℕ → Slot) {n p : ℕ} {side : Side} {h : ℕ}
    → SameLinks pool pool'
    → Points pool n p side h
    → Points pool' n p side h
Points-SameLinks pool pool' {h} same pt ne =
    ((pt ne).0, (same h).1 ∙ (pt ne).1, (same h).2 ∙ (pt ne).2)

pub Links-SameLinks :
    {n : ℕ} {pool pool' : ℕ → Slot} {buys sells : ℕ → Level}
    → SameLinks pool pool'
    → Links n pool buys sells
    → Links n pool' buys sells
Links-SameLinks {n} {pool} {pool'} same l = record {
  buy_head = λ p. Points-SameLinks pool pool' same (l.buy_head p);
  buy_tail = λ p. Points-SameLinks pool pool' same (l.buy_tail p);
  sell_head = λ p. Points-SameLinks pool pool' same (l.sell_head p);
  sell_tail = λ p. Points-SameLinks pool pool' same (l.sell_tail p);
  onward = λ i. ground (arith, same i, same (pool i).next, same (pool' i).next, l.onward i);
}

-- Where a walk along a chain may get from `h`: up, and within the price and the side.
abbrev pub Reached : (ℕ → Slot) → ℕ → ℕ → Side → ℕ → ℕ → Type 0
Reached pool n p side h r =
    Points pool n p side r × (r ≢ no_order → h ≤ r) × (r ≢ no_order → h ≢ no_order)

Reached-step :
    (pool : ℕ → Slot) (n p : ℕ) (side : Side) (h r : ℕ)
    → Points pool n p side h
    → Onward pool n h
    → h ≢ no_order
    → (Points pool n p side (pool h).next → Reached pool n p side (pool h).next r)
    → Reached pool n p side h r
Reached-step pool n p side h r pt on ne rest =
    let next : Points pool n p side (pool h).next = ground (arith, pt, on) in
    let got = rest next in (got.0, λ q. ground (arith, got.1, got.2, on), λ _. ne)

-- A walk from no order ends there.
pub first_active-no_order : (f : ℕ) (pool : ℕ → Slot) → first_active f pool no_order ≡ no_order
unfolding first_active
first_active-no_order zero pool = refl
first_active-no_order (suc f) pool = refl

module _ (n : ℕ) (pool : ℕ → Slot) (onward : (i : ℕ) → Onward pool n i) where
  -- The walk to the first active order stays at its price and on its side, and goes up.
  pub first_active-Reached :
      (f p : ℕ) (side : Side) (h : ℕ)
      → Points pool n p side h
      → Reached pool n p side h (first_active f pool h)
  unfolding first_active
  first_active-Reached zero p side h pt = (pt, λ _. omega arith, λ ne. ne)
  first_active-Reached (suc f) p side h pt =
      elim (Bool-cases ((h == no_order) || (pool h).active)) [
        | inl stop ↦ rw (stop, first_active) (pt, λ _. omega arith, λ ne. ne)
        | inr go ↦
            rw (go, first_active)
              (Reached-step pool n p side h _ pt (onward h) (ground (arith, go))
                (first_active-Reached f p side (pool h).next))
      ]

  -- With fuel for the ids that are left the walk ends by its test.
  pub first_active_ends :
      (f h : ℕ)
      → (h ≢ no_order → h < n)
      → n ≤ f + h
      → (first_active f pool h ≡ no_order) ⊎ ((pool (first_active f pool h)).active ≡ true)
  unfolding first_active
  first_active_ends zero h small fuel = ground arith
  first_active_ends (suc f) h small fuel =
      ground (arith, onward h, first_active-no_order f pool, first_active_ends f (pool h).next)

-- `skipInactive` moves the head forward, to an active order of its level or to none, and keeps the tail
-- of a level that is not empty.
pub skip_inactive_lem :
    (n : ℕ) (b : OrderBook) (p : ℕ) (side : Side) (lvl : Level)
    → ((i : ℕ) → Onward b.pool n i)
    → n ≤ b.pool_top
    → Points b.pool n p side lvl.head
    → Points b.pool n p side lvl.tail
    → let skipped = skip_inactive b lvl in
      Points b.pool n p side skipped.head
      × Points b.pool n p side skipped.tail
      × (skipped.head ≢ no_order
          → (lvl.head ≢ no_order)
            × (lvl.head ≤ skipped.head)
            × ((b.pool skipped.head).active ≡ true))
unfolding skip_inactive
skip_inactive_lem n b p side lvl onward room head tail = ground (
  arith,
  first_active-Reached n b.pool onward b.pool_top p side lvl.head,
  first_active_ends n b.pool onward b.pool_top lvl.head,
)

-- An order that nothing points to goes to the end of a level of its price and side.
pub enqueue-Links :
    (pool : ℕ → Slot) (lvl : Level) (id p : ℕ) (side : Side)
    → ((i : ℕ) → Onward pool id i)
    → id ≢ no_order
    → (pool id).price ≡ p
    → (pool id).side ≡ side
    → Points pool id p side lvl.head
    → Points pool id p side lvl.tail
    → let (pool', lvl') = enqueue pool lvl id in
      Points pool' (suc id) p side lvl'.head
      × Points pool' (suc id) p side lvl'.tail
      × ((i : ℕ) → Onward pool' (suc id) i)
unfolding enqueue
enqueue-Links pool lvl id p side onward new price same head tail =
    (ground arith, ground arith, λ i. ground (arith, onward i, onward lvl.tail))

-- One level is written, and the rest stays.
pub Links-set_buy :
    {n : ℕ} {pool : ℕ → Slot} {buys sells : ℕ → Level} (p : ℕ) (lvl : Level)
    → Links n pool buys sells
    → Points pool n p Side.buy lvl.head
    → Points pool n p Side.buy lvl.tail
    → Links n pool (update buys p lvl) sells
Links-set_buy p lvl l head tail = record {
  buy_head = λ q. ground (arith, head, l.buy_head q);
  buy_tail = λ q. ground (arith, tail, l.buy_tail q);
  sell_head = l.sell_head;
  sell_tail = l.sell_tail;
  onward = l.onward;
}

pub Links-set_sell :
    {n : ℕ} {pool : ℕ → Slot} {buys sells : ℕ → Level} (p : ℕ) (lvl : Level)
    → Links n pool buys sells
    → Points pool n p Side.sell lvl.head
    → Points pool n p Side.sell lvl.tail
    → Links n pool buys (update sells p lvl)
Links-set_sell p lvl l head tail = record {
  buy_head = l.buy_head;
  buy_tail = l.buy_tail;
  sell_head = λ q. ground (arith, head, l.sell_head q);
  sell_tail = λ q. ground (arith, tail, l.sell_tail q);
  onward = l.onward;
}
