-- ===== src/Market/RoundTrip.antt =====
-- The book of market/internal/service/snapshot.go comes back from its message as it was.
use secwager.Market.Snapshot.{
  unmarshal_book_state, unmarshal_entry, copy_bytes, unmarshal_match, marshal_entry,
  marshal_book_state, marshal_match, side_str,
}
use secwager.Prelude.{
  ℕ, suc, length, ◌≡◌, ap, All, zero, arith, inr, true, Bool-cases, refl, [], List, inl, ◌∷◌, ◌<◌,
  if◌then◌else◌, str_eq,
}
use secwager.MatchEngine.Types.{Side, Match, BookState, OrderEntry, trader_str, max_price, all_nul}
use mathlib.Core.List.{map}

zeros_lem : (n : ℕ) (t : List ℕ) → length t ≡ n → all_nul t ≡ true → copy_bytes n [] ≡ t
unfolding copy_bytes
zeros_lem zero [] e nul = refl
zeros_lem zero (c ∷ t) e nul = ground arith
zeros_lem (suc n) [] e nul = ground arith
zeros_lem (suc n) (c ∷ t) e nul = ground (arith, zeros_lem n t)

-- The name without its trailing NULs fills the array as it was.
copy_bytes-trader_str : (n : ℕ) (t : List ℕ) → length t ≡ n → copy_bytes n (trader_str t) ≡ t
unfolding copy_bytes trader_str
copy_bytes-trader_str zero [] e = refl
copy_bytes-trader_str zero (c ∷ t) e = ground arith
copy_bytes-trader_str (suc n) [] e = ground arith
copy_bytes-trader_str (suc n) (c ∷ t) e = elim (Bool-cases (all_nul (c ∷ t))) [
  | inl nul ↦ rw nul (zeros_lem (suc n) (c ∷ t) e nul)
  | inr not_nul ↦ rw not_nul (ap (λ u. c ∷ u) (copy_bytes-trader_str n t (omega (arith, e))))
]

abbrev IsMatch : Match → Type 0
IsMatch m = m.price < max_price

-- An entry with fields of their Go types.
abbrev pub IsEntry : OrderEntry → Type 0
IsEntry e = (length e.trader ≡ 8) × (e.price < max_price) × All IsMatch e.fills

abbrev pub IsBookState : BookState → Type 0
IsBookState s = (s.best_bid < max_price) × (s.best_ask < max_price) × All IsEntry s.orders

matches_lem : (ms : List Match) → All IsMatch ms → map unmarshal_match (map marshal_match ms) ≡ ms
matches_lem [] h = refl
matches_lem (m ∷ ms) h = ground (arith, matches_lem ms h.1)

side_lem : (s : Side) → (if str_eq (side_str s) "S" then Side.sell else Side.buy) ≡ s
side_lem Side.buy = refl
side_lem Side.sell = refl

entry_lem : (e : OrderEntry) → IsEntry e → unmarshal_entry (marshal_entry e) ≡ e
unfolding unmarshal_entry marshal_entry
entry_lem e (trader, price, fills) =
    ground
      (arith, copy_bytes-trader_str 8 e.trader trader, matches_lem e.fills fills, side_lem e.side)

entries_lem :
    (es : List OrderEntry) → All IsEntry es → map unmarshal_entry (map marshal_entry es) ≡ es
entries_lem [] h = refl
entries_lem (e ∷ es) h = rw (entry_lem e h.0, entries_lem es h.1) refl

-- A book's state whose fields are in the ranges of their Go types comes back from its message as it
-- was: names shorter than eight bytes, sides, the fills of each order, and the order of the orders
-- are all kept.
pub unmarshal-marshal :
    (s : BookState) → IsBookState s → unmarshal_book_state (marshal_book_state s) ≡ s
unfolding unmarshal_book_state marshal_book_state
unmarshal-marshal s (bid, ask, orders) = ground (arith, entries_lem s.orders orders)
