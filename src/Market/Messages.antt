-- ===== src/Market/Messages.antt =====
-- The messages of proto/secwager and proto/market that market/internal/service reads and writes. A
-- `uint32` is a number below 2^32; a trader's name is its bytes.
use secwager.Prelude.Int.{ℤ}
use secwager.Prelude.{ℕ, List, String}

pub data ProtoSide : Type 0 where
  buy sell : ProtoSide

pub record NewOrder : Type 0 where
  pub trader : List ℕ
  pub price : ℕ
  pub size : ℕ
  pub side : ProtoSide

-- `absent` is a command with neither field of the `oneof`.
pub data MarketCommand : Type 0 where
  new_order : NewOrder → MarketCommand
  cancel_order : ℕ → MarketCommand
  absent : MarketCommand

pub data ProtoExecType : Type 0 where
  order_accepted order_filled order_cancelled order_rejected : ProtoExecType

pub data ProtoRejectReason : Type 0 where
  reason_unspecified order_already_filled order_not_found : ProtoRejectReason

pub record ExecutionReport : Type 0 where
  pub symbol : String
  pub trader : List ℕ
  pub order_id : ℕ
  pub exec_type : ProtoExecType
  pub qty_filled : ℕ
  pub qty_remaining : ℕ
  pub fill_price : ℕ
  pub matched_against : List (List ℕ)
  pub reject_reason : ProtoRejectReason

pub record DepthUpdate : Type 0 where
  pub symbol : String
  pub best_bid : ℕ
  pub best_bid_qty : ℕ
  pub best_ask : ℕ
  pub best_ask_qty : ℕ

-- What goes out: a report on `ExecTopic`, or an update on `DepthTopic`.
pub data Publication : Type 0 where
  exec_report : ExecutionReport → Publication
  depth : DepthUpdate → Publication

pub record MatchSnapshot : Type 0 where
  pub order_id : ℕ
  pub trader : List ℕ
  pub price : ℕ
  pub qty : ℕ

-- The side is the text "B" or "S".
pub record OrderSnapshot : Type 0 where
  pub id : ℕ
  pub trader : List ℕ
  pub price : ℕ
  pub size : ℕ
  pub side : String
  pub qty_filled : ℕ
  pub matches : List MatchSnapshot

pub record BookSnapshot : Type 0 where
  pub orders : List OrderSnapshot
  pub best_bid : ℕ
  pub best_ask : ℕ
  pub pool_top : ℕ

pub record SymbolBook : Type 0 where
  pub symbol : String
  pub book : BookSnapshot

pub record MarketSnapshot : Type 0 where
  pub offset : ℤ
  pub books : List SymbolBook
