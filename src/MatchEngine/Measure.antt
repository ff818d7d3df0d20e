-- ===== src/MatchEngine/Measure.antt =====
-- Why the matching loops of matchengine/book.go end: each round takes a price level away, moves the
-- head of the level on, or uses the incoming order up.
use secwager.Prelude.{
  ℕ, ◌≡◌, if◌then◌else◌, ◌≤◌, inr, ◌≢◌, ◌<◌, ◌⊎◌, arith, ◌*◌, ◌==◌, ◌-◌, ◌+◌, suc, inl,
}
use secwager.MatchEngine.Types.{OrderBook, max_price, no_order}
use secwager.MatchEngine.Matching.{match_fuel}

-- How far an order id is from the end of the pool, and 0 at the end of a chain.
abbrev pub rank : ℕ → ℕ → ℕ
rank n h = if h == no_order then 0 else n - h

abbrev bit : ℕ → ℕ
bit size = if size == 0 then 0 else 1

-- The levels left, the orders left in the level, and whether the incoming order has a rest.
abbrev pub measure : (levels n head size : ℕ) → ℕ
measure levels n head size = levels * suc n + rank n head + bit size

-- What a round that stays at its level comes to.
abbrev pub Nearer : (n head head' size : ℕ) → Type 0
Nearer n head head' size =
    ((size ≡ 0) × (rank n head' ≤ rank n head)) ⊎ (rank n head' < rank n head)

bit_le : (size : ℕ) → bit size ≤ 1
bit_le size = ground arith

bit_live : (size : ℕ) → size ≢ 0 → bit size ≡ 1
bit_live size ne = ground arith

rank_le : (n h : ℕ) → rank n h ≤ n
rank_le n h = ground arith

pub measure_level :
    (levels k n head head' size size' : ℕ)
    → levels ≡ suc k
    → size ≢ 0
    → measure k n head' size' < measure levels n head size
measure_level levels k n head head' size size' more live =
    rw more (omega (arith, bit_le size', bit_live size live, rank_le n head'))

pub measure_drops :
    (k n head head' size size' : ℕ)
    → size ≢ 0
    → Nearer n head head' size'
    → measure k n head' size' < measure k n head size
measure_drops k n head head' size size' live (inl (done, near)) =
    rw done (omega (arith, bit_live size live))
measure_drops k n head head' size size' live (inr near) =
    omega (arith, bit_le size', bit_live size live)

pub fuel_enough :
    (levels n head size : ℕ) (b : OrderBook)
    → levels ≤ max_price
    → b.pool_top ≡ suc n
    → measure levels n head size < match_fuel b
unfolding match_fuel
fuel_enough levels n head size b le top =
    let bound : levels * suc n ≤ 65536 * suc n = grind arith in
    omega (arith, rank_le n head, bit_le size)
