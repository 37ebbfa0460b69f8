-- ===== src/Wire/Inbound.antt =====
-- The decoded client commands of crates/wire/src/inbound.
pub mod NewOrders
pub mod CancelOrders
pub mod CancelReplaces
pub mod MassCancels
pub mod KillSwitches
pub mod SnapshotRequests
pub mod Frames
use hft_clob_core.Prelude.{ℕ, Option}
use hft_clob_core.Prelude.Int.{ℤ}
use hft_clob_core.Domain.Side.{Side}
use hft_clob_core.Domain.OrderType.{OrderType}
use hft_clob_core.Domain.Tif.{Tif}
use hft_clob_core.Domain.Price.{Price}
use hft_clob_core.Domain.Qty.{Qty}
use hft_clob_core.Domain.OrderId.{OrderId}
use hft_clob_core.Domain.AccountId.{AccountId}

-- `ClientTs`, a signed number of nanoseconds.
abbrev pub ClientTs : Type 0
ClientTs = ℤ

pub record NewOrder : Type 0 where
  pub client_ts : ClientTs
  pub order_id : OrderId
  pub account_id : AccountId
  pub side : Side
  pub order_type : OrderType
  pub tif : Tif
  pub price : Option Price
  pub qty : Qty

pub record CancelOrder : Type 0 where
  pub client_ts : ClientTs
  pub order_id : OrderId
  pub account_id : AccountId

pub record CancelReplace : Type 0 where
  pub client_ts : ClientTs
  pub order_id : OrderId
  pub account_id : AccountId
  pub new_price : Price
  pub new_qty : Qty

pub record MassCancel : Type 0 where
  pub client_ts : ClientTs
  pub account_id : AccountId

pub data KillSwitchState : Type 0 where
  halt resume : KillSwitchState

pub record KillSwitchSet : Type 0 where
  pub client_ts : ClientTs
  pub admin_token : ℕ
  pub state : KillSwitchState

pub record SnapshotRequest : Type 0 where
  pub request_id : ℕ

pub data Inbound : Type 0 where
  new_order : NewOrder → Inbound
  cancel_order : CancelOrder → Inbound
  cancel_replace : CancelReplace → Inbound
  mass_cancel : MassCancel → Inbound
  kill_switch_set : KillSwitchSet → Inbound
  snapshot_request : SnapshotRequest → Inbound
