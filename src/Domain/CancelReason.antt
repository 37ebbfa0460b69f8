-- ===== src/Domain/CancelReason.antt =====
-- Cancellation reason codes, crates/domain/src/types/cancel_reason.rs: the discriminants and their checked decoding.
use hft_clob_core.Prelude.{ℕ, refl, Result, ok, err, ◌==◌, if◌then◌else◌, arith}
use hft_clob_core.Domain.Code.{IsCode}

pub data CancelReason : Type 0 where
  user_requested mass_cancel ioc_remaining self_trade_prevented replaced : CancelReason

pub data CancelReasonError : Type 0 where
  unknown : ℕ → CancelReasonError

unfoldable pub as_u8 : CancelReason → ℕ
as_u8 user_requested = 1
as_u8 mass_cancel = 2
as_u8 ioc_remaining = 3
as_u8 self_trade_prevented = 4
as_u8 replaced = 5

unfoldable pub try_from : ℕ → Result CancelReasonError CancelReason
try_from v =
    if v == 1
    then ok user_requested
    else if v == 2
    then ok mass_cancel
    else if v == 3
    then ok ioc_remaining
    else if v == 4
    then ok self_trade_prevented
    else if v == 5
    then ok replaced
    else err (unknown v)

-- Each CancelReason is read back from its byte, and no other byte is read.
pub CancelReason-IsCode : IsCode as_u8 try_from
unfolding as_u8 try_from
CancelReason-IsCode = record {
  decode-encode = elim [
    | user_requested ↦ refl
    | mass_cancel ↦ refl
    | ioc_remaining ↦ refl
    | self_trade_prevented ↦ refl
    | replaced ↦ refl
  ];
  encode_of_decode = λ v a h. ground arith;
  is_byte = elim [
    | user_requested ↦ omega arith
    | mass_cancel ↦ omega arith
    | ioc_remaining ↦ omega arith
    | self_trade_prevented ↦ omega arith
    | replaced ↦ omega arith
  ];
}
