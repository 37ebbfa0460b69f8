-- ===== src/Matching/Types.antt =====
-- crates/matching/src/fill.rs and error.rs, and the request and sidecar types of book.rs.
use hft_clob_core.Prelude.{ℕ, Bool, Option}
use hft_clob_core.Domain.Side.{Side}
use hft_clob_core.Domain.Tif.{Tif}
use hft_clob_core.Domain.Price.{Price}
use hft_clob_core.Domain.Qty.{Qty}
use hft_clob_core.Domain.OrderId.{OrderId}
use hft_clob_core.Domain.AccountId.{AccountId}
use hft_clob_core.Domain.Counter.{TradeId, EngineSeq}

-- `BookError`
pub data BookError : Type 0 where
  duplicate_order_id unknown_order_id seq_overflow level_rejected : BookError

pub record OrderMeta : Type 0 where
  pub side : Side
  pub price : Price
  pub account_id : AccountId
  pub tif : Tif

pub record RestingOrder : Type 0 where
  pub order_id : OrderId
  pub account_id : AccountId
  pub side : Side
  pub price : Price
  pub qty : Qty
  pub tif : Tif

-- `price` is `none` for a market order.
pub record AggressiveOrder : Type 0 where
  pub order_id : OrderId
  pub account_id : AccountId
  pub side : Side
  pub price : Option Price
  pub qty : Qty
  pub tif : Tif

pub record Fill : Type 0 where
  pub trade_id : TradeId
  pub maker_order_id : OrderId
  pub taker_order_id : OrderId
  pub maker_side : Side
  pub price : Price
  pub qty : Qty
  pub maker_fully_filled : Bool

pub record StpCancellation : Type 0 where
  pub order_id : OrderId
  pub account_id : AccountId
  pub side : Side
  pub price : Price
  pub qty : Qty

pub record MassCancellation : Type 0 where
  pub order_id : OrderId
  pub account_id : AccountId
  pub side : Side
  pub price : Price
  pub qty : Qty

pub record MatchResult : Type 0 where
  pub fills_count : ℕ
  pub stp_cancellations : ℕ
  pub taker_remaining : Option Qty
  pub taker_stp_cancelled : Bool
  pub taker_post_only_rejected : Bool

pub record ReplaceOutcome : Type 0 where
  pub kept_priority : Bool
  pub match_result : Option MatchResult

-- The trait of crates/domain/src/traits.rs: each method returns the value and the generator after it.
pub record IdGenerator (G : Type 0) : Type 0 where
  pub next_trade_id : G → TradeId × G
  pub next_engine_seq : G → EngineSeq × G
