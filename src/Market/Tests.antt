-- ===== src/Market/Tests.antt =====
-- The service of market/internal/service at work, on two symbols and a message that does not decode.
use secwager.Market.RoundTrip.{unmarshal-marshal}
use secwager.Market.Replaying.{tagged, books_after, run_books}
use mathlib.Core.Path.{subst}
use mathlib.Core.Option.{some-injective}
use secwager.Prelude.Int.{negsuc, pos, ◌+ℤ◌}
use secwager.Market.Service.{MarketService, Message, replay, live_loop, dispatch_message}
use secwager.Market.Consuming.{AreValid, IsCommand, live_loop-AreValid}
use secwager.Market.Snapshot.{unmarshal_book_state, marshal_book_state}
use secwager.Prelude.{ℕ, arith, ◌∷◌, false, true, ◌≡◌, none, [], refl, some, Option, suc, zero}
use secwager.Market.Messages.{ProtoSide, MarketCommand}
use secwager.MatchEngine.Types.{Side, BookState}

abbrev ask_command : MarketCommand
ask_command =
    MarketCommand.new_order
      (record { trader = 65 ∷ []; price = 60; size = 5; side = ProtoSide.sell })

-- Here a message's value is 0 for the order, 1 for bytes that do not decode, and 2 + id to cancel.
abbrev decoded : ℕ → Option MarketCommand
decoded zero = some ask_command
decoded (suc zero) = none
decoded (suc (suc id)) = some (MarketCommand.cancel_order id)

abbrev started : MarketService
started = record { engines = []; offset = negsuc 0; live = false }

abbrev first : Message ℕ
first = record { offset = pos 0; key = "A"; value = 0 }

abbrev second : Message ℕ
second = record { offset = pos 1; key = "B"; value = 1 }

abbrev third : Message ℕ
third = record { offset = pos 2; key = "A"; value = 3 }

-- Two messages lie below the mark, so one is left.
replays :
    let (s, rest) = replay decoded (pos 2) (first ∷ second ∷ third ∷ []) started in
    (s.offset ≡ pos 1) × (rest ≡ third ∷ [])
unfolding replay dispatch_message ◌+ℤ◌
replays = (refl, refl)

wired : (v : ℕ) (cmd : MarketCommand) → decoded v ≡ some cmd → IsCommand cmd
wired zero cmd e = subst IsCommand (some-injective _ _ e) (omega arith)
wired (suc zero) cmd e = cc
wired (suc (suc id)) cmd e = subst IsCommand (some-injective _ _ e) tt

live_loop-AreValid_example :
    AreValid
      (live_loop decoded 2 false ((first, true) ∷ (third, false) ∷ []) 0 started none).0.engines
live_loop-AreValid_example =
    live_loop-AreValid decoded wired 2 false ((first, true) ∷ (third, false) ∷ []) 0 started none tt

run_books_example :
    let (s', rest) = replay decoded (pos 2) (first ∷ second ∷ third ∷ []) started in
    (live_loop decoded 1 false
      (tagged decoded (λ msg. true) rest)
      0
      (record s' { live = true })
      none).0.engines
    ≡ books_after decoded (first ∷ second ∷ third ∷ []) []
run_books_example =
    run_books decoded (pos 2) 1 false (λ msg. true) (first ∷ second ∷ third ∷ []) started none

abbrev state : BookState
state = record {
  orders =
      record {
        id = 1;
        trader = 65 ∷ 66 ∷ 0 ∷ 0 ∷ 0 ∷ 0 ∷ 0 ∷ 0 ∷ [];
        price = 60;
        size = 5;
        side = Side.sell;
        qty_filled = 2;
        fills = record { order_id = 2; trader = 67 ∷ []; price = 60; qty = 2 } ∷ [];
      }
      ∷ [];
  best_bid = 0;
  best_ask = 60;
  pool_top = 3;
}

unmarshal-marshal_example : unmarshal_book_state (marshal_book_state state) ≡ state
unmarshal-marshal_example =
    unmarshal-marshal state (omega arith, omega arith, ((refl, omega arith, (omega arith, tt)), tt))
