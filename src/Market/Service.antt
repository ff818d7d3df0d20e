-- ===== src/Market/Service.antt =====
-- `MarketService` of market/internal/service/service.go. Kafka is a parameter: the messages are those
-- that the reader gives, in their order, and a publication that fails is only logged. `decode` is the
-- protobuf library's, `none` where it fails.
use secwager.MatchEngine.Cancel.{cancel}
use secwager.MatchEngine.Persistence.{restore}
use secwager.MatchEngine.Limit.{limit}
use secwager.MatchEngine.Book.{new_book}
use secwager.Market.Snapshot.{Engines, persist, load, copy_bytes, to_price}
use secwager.Prelude.Int.{ℤ, ltb_ℤ, ◌+ℤ◌, pos}
use secwager.Prelude.{
  ℕ, [], false, String, ◌++◌, Bool, ◌+◌, str_eq, leb, ◌∷◌, some, Option, if◌then◌else◌, List, none,
}
use secwager.MatchEngine.Types.{
  Side, Event, OrderEvent, RejectReason, OrderBook, BboEvent, BookState, ExecType, Match, Order,
}
use secwager.Market.Messages.{
  ProtoSide, MarketCommand, MarketSnapshot, Publication, NewOrder, ProtoRejectReason, exec_report,
  ProtoExecType, depth, order_already_filled, order_filled, order_cancelled, order_not_found,
  reason_unspecified, order_rejected, order_accepted,
}
use mathlib.Core.List.{map}

pub record MarketService : Type 0 where
  pub engines : Engines
  pub offset : ℤ
  pub live : Bool

unfoldable pub lookup_book : String → Engines → Option OrderBook
lookup_book symbol [] = none
lookup_book symbol ((s, eng) ∷ rest) = if str_eq s symbol then some eng else lookup_book symbol rest

-- `bookFor`: the engine of the symbol, which is new if there was none.
abbrev pub book_for : String → Engines → OrderBook
book_for symbol engines = elim (lookup_book symbol engines) [ some eng ↦ eng | none ↦ new_book ]

-- The engine of the symbol is the one that `bookFor` gave, as the command left it.
unfoldable pub store_book : String → OrderBook → Engines → Engines
store_book symbol eng [] = (symbol, eng) ∷ []
store_book symbol eng ((s, old) ∷ rest) =
    if str_eq s symbol then (s, eng) ∷ rest else (s, old) ∷ store_book symbol eng rest

abbrev pub to_side : ProtoSide → Side
to_side ProtoSide.buy = Side.buy
to_side ProtoSide.sell = Side.sell

abbrev pub to_order : NewOrder → Order
to_order o = record {
  trader = copy_bytes 8 o.trader;
  price = to_price o.price;
  size = o.size;
  side = to_side o.side;
}

-- What a command makes of its book, and the events.
unfoldable pub apply_command : MarketCommand → OrderBook → OrderBook × List Event
apply_command (MarketCommand.new_order o) b =
    let (_, b', events) = limit (to_order o) b in (b', events)
apply_command (MarketCommand.cancel_order id) b = cancel id b
apply_command MarketCommand.absent b = (b, [])

abbrev pub to_proto_exec_type : ExecType → ProtoExecType
to_proto_exec_type ExecType.filled = order_filled
to_proto_exec_type ExecType.cancelled = order_cancelled
to_proto_exec_type ExecType.rejected = order_rejected
to_proto_exec_type ExecType.accepted = order_accepted

abbrev pub to_proto_reject_reason : RejectReason → ProtoRejectReason
to_proto_reject_reason RejectReason.already_filled = order_already_filled
to_proto_reject_reason RejectReason.not_found = order_not_found
to_proto_reject_reason RejectReason.pool_exhausted = reason_unspecified
to_proto_reject_reason RejectReason.unspecified = reason_unspecified

-- The price of the last fill, 0 if there is none.
abbrev pub last_price : List Match → ℕ
last_price [] = 0
last_price (m ∷ ms) = elim ms [ [] ↦ m.price | _ ∷ _ ↦ last_price ms ]

abbrev pub publish_exec_report : String → OrderEvent → Publication
publish_exec_report symbol e = exec_report (record {
  symbol = symbol;
  trader = e.trader;
  order_id = e.order_id;
  exec_type = to_proto_exec_type e.exec_type;
  qty_filled = e.qty_filled;
  qty_remaining = e.qty_remaining;
  fill_price = last_price e.fills;
  matched_against = map (λ m. m.trader) e.fills;
  reject_reason = to_proto_reject_reason e.reason;
})

abbrev pub publish_depth : String → BboEvent → Publication
publish_depth symbol e = depth (record {
  symbol = symbol;
  best_bid = e.bid;
  best_bid_qty = e.bid_qty;
  best_ask = e.ask;
  best_ask_qty = e.ask_qty;
})

abbrev pub publish : String → Event → Publication
publish symbol (Event.order e) = publish_exec_report symbol e
publish symbol (Event.bbo e) = publish_depth symbol e

unfoldable pub process_command :
    String → MarketCommand → MarketService → MarketService × List Publication
unfolding apply_command
process_command symbol cmd s =
    let (b, events) = apply_command cmd (book_for symbol s.engines) in
    (
      record s { engines = store_book symbol b s.engines },
      if s.live then map (publish symbol) events else [],
    )

-- A message of the topic.
pub record Message (V : Type 0) : Type 0 where
  pub offset : ℤ
  pub key : String
  pub value : V

module _ {V : Type 0} (decode : V → Option MarketCommand) where
  unfoldable pub dispatch_message : Message V → MarketService → MarketService × List Publication
  unfolding process_command
  dispatch_message msg s = elim (decode msg.value) [
    | none ↦ (s, [])
    | some cmd ↦ process_command msg.key cmd s
  ]

  -- One round of either loop of `Run`: the offset moves to the message's.
  abbrev pub consume : Message V → MarketService → MarketService × List Publication
  consume msg s = let (s', out) = dispatch_message msg s in (record s' { offset = msg.offset }, out)

  -- Replay, with nothing published, up to the high-water mark; what is left is for the live loop.
  unfoldable pub replay : ℤ → List (Message V) → MarketService → MarketService × List (Message V)
  unfolding dispatch_message
  replay hwm [] s = (s, [])
  replay hwm (msg ∷ msgs) s =
      let rest = replay hwm msgs (consume msg s).0 in
      if ltb_ℤ (s.offset +ℤ pos 1) hwm then rest else (s, msg ∷ msgs)

  -- The live loop: the service, what was published, and the disk, from the count since the last flush.
  -- A message comes with whether a flush after it would fail; the service ends with a flush, which
  -- fails if `last_fails`.
  unfoldable pub live_loop :
      ℕ
      → Bool
      → List (Message V × Bool)
      → ℕ
      → MarketService
      → Option MarketSnapshot
      → MarketService × List Publication × Option MarketSnapshot
  unfolding dispatch_message
  live_loop flush_every last_fails [] count s disk =
      (s, [], persist last_fails s.offset s.engines disk)
  live_loop flush_every last_fails ((msg, fails) ∷ msgs) count s disk =
      let (s', out) = consume msg s in
      let flush = leb flush_every (count + 1) in
      let (last, outs, disk') =
        live_loop flush_every last_fails msgs (if flush then 0 else count + 1) s'
          (if flush then persist fails s'.offset s'.engines disk else disk) in
      (last, out ++ outs, disk')

-- The first part of `Run`: the books of the snapshot, restored.
unfoldable pub boot_books : List (String × BookState) → Engines → Engines
boot_books [] engines = engines
boot_books ((symbol, state) ∷ books) engines =
    boot_books books (store_book symbol (restore state) engines)

unfoldable pub boot : Option MarketSnapshot → MarketService
boot disk =
    let (offset, books) = load disk in
    record { engines = boot_books books []; offset = offset; live = false }
