-- ===== src/Domain/Error.antt =====
-- crates/domain/src/error.rs: one error for every validation of the crate.
use hft_clob_core.Domain.Side.{SideError}
use hft_clob_core.Domain.Tif.{TifError}
use hft_clob_core.Domain.OrderType.{OrderTypeError}
use hft_clob_core.Domain.ExecState.{ExecStateError}
use hft_clob_core.Domain.RejectReason.{RejectReasonError}
use hft_clob_core.Domain.CancelReason.{CancelReasonError}
use hft_clob_core.Domain.Price.{PriceError}
use hft_clob_core.Domain.Qty.{QtyError}
use hft_clob_core.Domain.OrderId.{OrderIdError}
use hft_clob_core.Domain.AccountId.{AccountIdError}
use hft_clob_core.Domain.Counter.{CounterError}

pub data DomainError : Type 0 where
  price : PriceError → DomainError
  qty : QtyError → DomainError
  order_id : OrderIdError → DomainError
  account_id : AccountIdError → DomainError
  engine_seq : CounterError → DomainError
  trade_id : CounterError → DomainError
  side : SideError → DomainError
  order_type : OrderTypeError → DomainError
  tif : TifError → DomainError
  reject_reason : RejectReasonError → DomainError
  cancel_reason : CancelReasonError → DomainError
  exec_state : ExecStateError → DomainError
