-- ===== src/MatchEngine/Cancel.antt =====
-- `OrderBook.Cancel` of matchengine/book.go.
use secwager.Prelude.{
  ◌||◌, ◌∷◌, ltb, not, update, false, ◌&&◌, ℕ, ◌==◌, leb, if◌then◌else◌, [], List,
}
use secwager.MatchEngine.Types.{
  Side, Event, OrderBook, Slot, no_order, RejectReason, ExecType, trader_str, max_price,
}
use secwager.MatchEngine.Book.{best_bid, best_ask, bbo_of, append_bbo_if_changed}

abbrev pub reject_cancel : ℕ → RejectReason → Event
reject_cancel id reason = Event.order (record {
  order_id = id;
  trader = [];
  exec_type = ExecType.rejected;
  qty_filled = 0;
  qty_remaining = 0;
  fills = [];
  reason = reason;
})

-- `slot.active = false; slot.size = 0`
abbrev pub clear_slot : OrderBook → ℕ → OrderBook
clear_slot b id = record b {
  pool = update b.pool id (record (b.pool id) { active = false; size = 0 });
}

-- The best price that a cancelled order may have held is looked for again.
unfoldable pub rescan : OrderBook → Slot → OrderBook
rescan b slot = elim slot.side [
  | Side.buy ↦ if slot.price == b.bid_max then record b { bid_max = best_bid b } else b
  | Side.sell ↦ let ba = best_ask b in record b { ask_min = if ba == 0 then max_price else ba }
]

unfoldable pub cancel : ℕ → OrderBook → OrderBook × List Event
cancel id b =
    if (id == no_order) || leb b.pool_top id
    then (b, reject_cancel id RejectReason.not_found ∷ [])
    else let slot = b.pool id in
      if not slot.active
      then (
        b,
        reject_cancel id (
              if (slot.size == 0) && ltb id b.pool_top
              then RejectReason.already_filled
              else RejectReason.not_found)
            ∷ [],
      )
      else let b' = rescan (clear_slot b id) slot in
        let done = Event.order (record {
          order_id = id;
          trader = trader_str slot.trader;
          exec_type = ExecType.cancelled;
          qty_filled = slot.qty_filled;
          qty_remaining = slot.size;
          fills = slot.fills;
          reason = RejectReason.unspecified;
        }) in
        (b', append_bbo_if_changed (done ∷ []) (bbo_of b) b')
