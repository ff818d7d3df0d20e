-- ===== src/MatchEngine/Types.antt =====
-- The types of matchengine/types.go, and the book of matchengine/book.go. An id, a price and a size
-- are natural numbers below 2^32, 2^16 and 2^32; a trader is its eight bytes. The arrays `pool`,
-- `buys` and `sells` are functions of the index.
use secwager.Prelude.{
  ℕ, List, Bool, ◌∷◌, ltb, false, true, ◌||◌, ◌==◌, if◌then◌else◌, suc, zero, [],
}

pub data Side : Type 0 where
  buy sell : Side

pub data ExecType : Type 0 where
  accepted filled cancelled rejected : ExecType

pub data RejectReason : Type 0 where
  unspecified pool_exhausted already_filled not_found : RejectReason

abbrev pub Trader : Type 0
Trader = List ℕ

pub record Order : Type 0 where
  pub trader : Trader
  pub price : ℕ
  pub size : ℕ
  pub side : Side

pub record Match : Type 0 where
  pub order_id : ℕ
  pub trader : Trader
  pub price : ℕ
  pub qty : ℕ

pub record OrderEvent : Type 0 where
  pub order_id : ℕ
  pub trader : Trader
  pub exec_type : ExecType
  pub qty_filled : ℕ
  pub qty_remaining : ℕ
  pub fills : List Match
  pub reason : RejectReason

pub record BboEvent : Type 0 where
  pub bid : ℕ
  pub bid_qty : ℕ
  pub ask : ℕ
  pub ask_qty : ℕ

pub data Event : Type 0 where
  order : OrderEvent → Event
  bbo : BboEvent → Event

pub record OrderEntry : Type 0 where
  pub id : ℕ
  pub trader : Trader
  pub price : ℕ
  pub size : ℕ
  pub side : Side
  pub qty_filled : ℕ
  pub fills : List Match

pub record BookState : Type 0 where
  pub orders : List OrderEntry
  pub best_bid : ℕ
  pub best_ask : ℕ
  pub pool_top : ℕ

pub record Slot : Type 0 where
  pub trader : Trader
  pub size : ℕ
  pub next : ℕ
  pub price : ℕ
  pub side : Side
  pub active : Bool
  pub qty_filled : ℕ
  pub fills : List Match

pub record Level : Type 0 where
  pub head : ℕ
  pub tail : ℕ

pub record OrderBook : Type 0 where
  pub pool : ℕ → Slot
  pub pool_top : ℕ
  pub buys : ℕ → Level
  pub sells : ℕ → Level
  pub bid_max : ℕ
  pub ask_min : ℕ

abbrev pub max_price : ℕ
max_price = 65536

abbrev pub max_orders : ℕ
max_orders = 1048576

-- Go's zero `orderSlot` and `priceLevel`, and the id that means no order.
abbrev pub no_order : ℕ
no_order = 0

abbrev pub empty_slot : Slot
empty_slot = record {
  trader = 0 ∷ 0 ∷ 0 ∷ 0 ∷ 0 ∷ 0 ∷ 0 ∷ 0 ∷ [];
  size = 0;
  next = 0;
  price = 0;
  side = buy;
  active = false;
  qty_filled = 0;
  fills = [];
}

abbrev pub empty_level : Level
empty_level = record { head = 0; tail = 0 }

-- Whether every byte is NUL.
abbrev pub all_nul : Trader → Bool
all_nul [] = true
all_nul (c ∷ t) = if c == 0 then all_nul t else false

-- `strings.TrimRight(string(t[:]), "\x00")`
unfoldable pub trader_str : Trader → Trader
trader_str [] = []
trader_str (c ∷ t) = if all_nul (c ∷ t) then [] else c ∷ trader_str t

unfoldable pub min32 : ℕ → ℕ → ℕ
min32 a b = if ltb a b then a else b

-- The first active order of a chain, or `no_order`: the loop of `skipInactive`, and the inner loops of
-- `BestBid` and `BestAsk`. Along a chain the ids grow, so the pool's size is fuel enough.
unfoldable pub first_active : ℕ → (ℕ → Slot) → ℕ → ℕ
first_active zero pool h = h
first_active (suc f) pool h = elim ((h == 0) || (pool h).active) [
  | true ↦ h
  | false ↦ first_active f pool (pool h).next
]
