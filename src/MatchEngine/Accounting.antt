-- ===== src/MatchEngine/Accounting.antt =====
-- The quantities of the orders in matchengine/book.go: what is filled and what remains make up the
-- order, and the fills that it lists make up what is filled.
use native.Mathlib.Decide.{ℕ_discrete}
use secwager.Prelude.{
  ℕ, ◌∷◌, List, ◌<◌, [], arith, ◌+◌, ◌≡◌, ◌≢◌, ◌++◌, ◌^◌, ◌⊎◌, update, refl, ◌≤◌, inl, inr,
  All-append, All, ◌∙◌,
}
use secwager.MatchEngine.Types.{Match, Slot, Level, min32}
use secwager.MatchEngine.Matching.{trade, fill_head, add_fill, match_with}

-- The quantity of a list of fills.
abbrev pub total_qty : List Match → ℕ
total_qty [] = 0
total_qty (m ∷ ms) = m.qty + total_qty ms

total_qty-append : (ms ns : List Match) → total_qty (ms ++ ns) ≡ total_qty ms + total_qty ns
total_qty-append [] ns = omega arith
total_qty-append (m ∷ ms) ns = omega (arith, total_qty-append ms ns)

-- The order's size when it was entered.
abbrev pub original : Slot → ℕ
original s = s.size + s.qty_filled

abbrev pub IsAccounted : Slot → Type 0
IsAccounted s = (original s < 2 ^ 32) × (total_qty s.fills ≡ s.qty_filled)

-- `j` is accounted for in `pool'`, and has the size it had in `pool`.
abbrev pub KeepsAccount : (ℕ → Slot) → (ℕ → Slot) → ℕ → Type 0
KeepsAccount pool pool' j = IsAccounted (pool' j) × (original (pool' j) ≡ original (pool j))

-- A fill of no more than what remains keeps one order accounted for.
add_fill-IsAccounted :
    (s : Slot) (m : Match)
    → m.qty ≤ s.size
    → IsAccounted s
    → IsAccounted (add_fill s m) × (original (add_fill s m) ≡ original s)
add_fill-IsAccounted s m le h = ground (arith, total_qty-append s.fills (m ∷ []))

-- What the two sides of a fill hold after it, and what all others do.
trade-cases :
    (pool : ℕ → Slot) (id r j : ℕ)
    → id ≢ r
    → (trade pool id r j ≡ pool j)
      ⊎ ((m : Match) × (m.qty ≤ (pool j).size) × (trade pool id r j ≡ add_fill (pool j) m))
unfolding trade min32
trade-cases pool id r j ne =
    let fill = min32 (pool id).size (pool r).size in
    let price = (pool r).price in
    let agg = update pool id (add_fill (pool id) (match_with pool r price fill)) in
    elim (ℕ_discrete j r) [
      | yes e ↦ inr (match_with agg id price fill, ground arith, ground arith)
      | no n ↦ elim (ℕ_discrete j id) [
        | yes e ↦ inr (match_with pool r price fill, ground arith, ground arith)
        | no k ↦ inl (ground arith)
      ]
    ]

trade-KeepsAccount :
    (pool : ℕ → Slot) (id r j : ℕ)
    → id ≢ r
    → IsAccounted (pool j)
    → KeepsAccount pool (trade pool id r) j
trade-KeepsAccount pool id r j ne c = elim (trade-cases pool id r j ne) [
  | inl e ↦ rw e (c, refl)
  | inr (m, le, e) ↦ rw e (add_fill-IsAccounted (pool j) m le c)
]

pub fill_head-KeepsAccount :
    (pool : ℕ → Slot) (id : ℕ) (lvl : Level) (j : ℕ)
    → id ≢ lvl.head
    → ((i : ℕ) → IsAccounted (pool i))
    → KeepsAccount pool (fill_head pool id lvl).0 j
unfolding fill_head
fill_head-KeepsAccount pool id lvl j ne all = ground (
  arith,
  trade-KeepsAccount pool id lvl.head j ne (all j),
  trade-KeepsAccount pool id lvl.head lvl.head ne (all lvl.head),
)

trade-fills :
    (pool : ℕ → Slot) (id r : ℕ)
    → id ≢ r
    → (m : Match) × ((trade pool id r id).fills ≡ (pool id).fills ++ m ∷ [])
      × (m.price ≡ (pool r).price)
unfolding trade
trade-fills pool id r ne =
    (match_with pool r (pool r).price (min32 (pool id).size (pool r).size), ground arith, refl)

fill_head-fills :
    (pool : ℕ → Slot) (id : ℕ) (lvl : Level)
    → ((fill_head pool id lvl).0 id).fills ≡ (trade pool id lvl.head id).fills
unfolding fill_head
fill_head-fills pool id lvl = ground arith

-- The incoming order is filled at the resting order's price.
pub fill_head-All :
    (Q : ℕ → Type 0) (pool : ℕ → Slot) (id : ℕ) (lvl : Level)
    → id ≢ lvl.head
    → Q (pool lvl.head).price
    → All (λ m. Q m.price) (pool id).fills
    → All (λ m. Q m.price) ((fill_head pool id lvl).0 id).fills
fill_head-All Q pool id lvl ne q h =
    let (m, e, price) = trade-fills pool id lvl.head ne in
    let same : ((fill_head pool id lvl).0 id).fills ≡ (pool id).fills ++ m ∷ [] =
      fill_head-fills pool id lvl ∙ e in
    rw same (All-append (λ m. Q m.price) (pool id).fills (m ∷ []) h (rw price q, tt))
