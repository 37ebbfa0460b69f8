-- ===== src/Wire/Outbound.antt =====
-- The messages to the clients and to the market data, crates/wire/src/outbound.
pub mod ExecReports
pub mod TradePrints
pub mod BookTops
pub mod LevelDeltas
pub mod Snapshots
pub mod Frames
use hft_clob_core.Prelude.{ℕ, Option, List}
use hft_clob_core.Prelude.Int.{ℤ}
use hft_clob_core.Domain.Side.{Side}
use hft_clob_core.Domain.Price.{Price}
use hft_clob_core.Domain.Qty.{Qty}
use hft_clob_core.Domain.OrderId.{OrderId}
use hft_clob_core.Domain.AccountId.{AccountId}
use hft_clob_core.Domain.Counter.{TradeId, EngineSeq}
use hft_clob_core.Domain.ExecState.{ExecState}
use hft_clob_core.Domain.RejectReason.{RejectReason}
use hft_clob_core.Domain.CancelReason.{CancelReason}

-- `RecvTs`, a signed number of nanoseconds.
abbrev pub RecvTs : Type 0
RecvTs = ℤ

pub record ExecReport : Type 0 where
  pub engine_seq : EngineSeq
  pub order_id : OrderId
  pub account_id : AccountId
  pub state : ExecState
  pub fill_price : Option Price
  pub fill_qty : Option Qty
  pub leaves_qty : Option Qty
  pub reject_reason : Option RejectReason
  pub cancel_reason : Option CancelReason
  pub recv_ts : RecvTs
  pub emit_ts : RecvTs

pub record TradePrint : Type 0 where
  pub engine_seq : EngineSeq
  pub trade_id : TradeId
  pub price : Price
  pub qty : Qty
  pub aggressor_side : Side
  pub emit_ts : RecvTs

pub record BookUpdateTop : Type 0 where
  pub engine_seq : EngineSeq
  pub bid : Option (Price × Qty)
  pub ask : Option (Price × Qty)
  pub emit_ts : RecvTs

-- Without a quantity the level is removed.
pub record BookUpdateL2Delta : Type 0 where
  pub engine_seq : EngineSeq
  pub price : Price
  pub new_qty : Option Qty
  pub side : Side
  pub emit_ts : RecvTs

-- `snapshot_response::Level`
pub record SnapshotLevel : Type 0 where
  pub price : Price
  pub qty : Qty

pub record SnapshotResponse : Type 0 where
  pub engine_seq : EngineSeq
  pub request_id : ℕ
  pub recv_ts : RecvTs
  pub emit_ts : RecvTs
  pub bids : List SnapshotLevel
  pub asks : List SnapshotLevel

pub data Outbound : Type 0 where
  exec_report : ExecReport → Outbound
  trade_print : TradePrint → Outbound
  book_update_top : BookUpdateTop → Outbound
  book_update_l2_delta : BookUpdateL2Delta → Outbound
  snapshot_response : SnapshotResponse → Outbound
