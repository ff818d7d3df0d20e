-- ===== src/Market/Snapshot.antt =====
-- market/internal/service/snapshot.go: the books on the wire and on disk. The file system and the codec
-- of the protobuf library are outside: a snapshot that is written is the message itself.
use secwager.MatchEngine.Persistence.{snapshot}
use secwager.Market.Messages.{
  BookSnapshot, OrderSnapshot, SymbolBook, MatchSnapshot, MarketSnapshot,
}
use secwager.Prelude.Int.{ℤ, negsuc}
use secwager.Prelude.{
  ℕ, Option, Bool, str_eq, zero, String, List, ◌∷◌, some, if◌then◌else◌, suc, none, ◌%◌, [],
}
use secwager.MatchEngine.Types.{Side, BookState, Match, OrderEntry, OrderBook, trader_str}
use mathlib.Core.List.{map}

-- `copy(t[:], s)` on an array of `n` bytes that is zero.
unfoldable pub copy_bytes : ℕ → List ℕ → List ℕ
copy_bytes zero s = []
copy_bytes (suc n) [] = 0 ∷ copy_bytes n []
copy_bytes (suc n) (c ∷ s) = c ∷ copy_bytes n s

-- A conversion to `me.Price`, which has 16 bits.
abbrev pub to_price : ℕ → ℕ
to_price p = p % 65536

abbrev pub marshal_match : Match → MatchSnapshot
marshal_match m = record { order_id = m.order_id; trader = m.trader; price = m.price; qty = m.qty }

abbrev pub unmarshal_match : MatchSnapshot → Match
unmarshal_match m = record {
  order_id = m.order_id;
  trader = m.trader;
  price = to_price m.price;
  qty = m.qty;
}

abbrev pub side_str : Side → String
side_str Side.buy = "B"
side_str Side.sell = "S"

unfoldable pub marshal_entry : OrderEntry → OrderSnapshot
marshal_entry e = record {
  id = e.id;
  trader = trader_str e.trader;
  price = e.price;
  size = e.size;
  side = side_str e.side;
  qty_filled = e.qty_filled;
  matches = map marshal_match e.fills;
}

unfoldable pub unmarshal_entry : OrderSnapshot → OrderEntry
unmarshal_entry o = record {
  id = o.id;
  trader = copy_bytes 8 o.trader;
  price = to_price o.price;
  size = o.size;
  side = if str_eq o.side "S" then Side.sell else Side.buy;
  qty_filled = o.qty_filled;
  fills = map unmarshal_match o.matches;
}

unfoldable pub marshal_book_state : BookState → BookSnapshot
marshal_book_state state = record {
  orders = map marshal_entry state.orders;
  best_bid = state.best_bid;
  best_ask = state.best_ask;
  pool_top = state.pool_top;
}

unfoldable pub unmarshal_book_state : BookSnapshot → BookState
unmarshal_book_state pb = record {
  orders = map unmarshal_entry pb.orders;
  best_bid = to_price pb.best_bid;
  best_ask = to_price pb.best_ask;
  pool_top = pb.pool_top;
}

-- The map of engines, an association list.
abbrev pub Engines : Type 0
Engines = List (String × OrderBook)

abbrev pub book_message : String × OrderBook → SymbolBook
book_message (symbol, eng) = record { symbol = symbol; book = marshal_book_state (snapshot eng) }

-- What `persist` writes: the snapshot takes the old one's place by a rename, so a write that fails
-- leaves the old one.
unfoldable pub persist : Bool → ℤ → Engines → Option MarketSnapshot → Option MarketSnapshot
persist fails offset engines disk =
    if fails then disk else some (record { offset = offset; books = map book_message engines })

abbrev pub put_state : String → BookState → List (String × BookState) → List (String × BookState)
put_state symbol state [] = (symbol, state) ∷ []
put_state symbol state ((s, old) ∷ books) =
    if str_eq s symbol then (s, state) ∷ books else (s, old) ∷ put_state symbol state books

unfoldable pub load_books : List SymbolBook → List (String × BookState) → List (String × BookState)
load_books [] books = books
load_books (sb ∷ sbs) books =
    load_books sbs (put_state sb.symbol (unmarshal_book_state sb.book) books)

-- `load` where the file is read: -1 and no books where there is none.
unfoldable pub load : Option MarketSnapshot → ℤ × List (String × BookState)
load none = (negsuc 0, [])
load (some snap) = (snap.offset, load_books snap.books [])
