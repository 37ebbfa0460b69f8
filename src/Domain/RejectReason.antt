-- ===== src/Domain/RejectReason.antt =====
-- Rejection reason codes, crates/domain/src/types/reject_reason.rs: the discriminants and their checked decoding.
use hft_clob_core.Prelude.{ℕ, refl, Result, ok, err, ◌==◌, if◌then◌else◌, arith}
use hft_clob_core.Domain.Code.{IsCode}

pub data RejectReason : Type 0 where
  kill_switched invalid_price invalid_qty tick_violation lot_violation price_band : RejectReason
  max_open_orders max_notional unknown_order_id duplicate_order_id post_only_would_cross :
      RejectReason
  self_trade_prevented market_order_in_empty_book unknown_account malformed_message : RejectReason

pub data RejectReasonError : Type 0 where
  unknown : ℕ → RejectReasonError

unfoldable pub as_u8 : RejectReason → ℕ
as_u8 kill_switched = 1
as_u8 invalid_price = 2
as_u8 invalid_qty = 3
as_u8 tick_violation = 4
as_u8 lot_violation = 5
as_u8 price_band = 6
as_u8 max_open_orders = 7
as_u8 max_notional = 8
as_u8 unknown_order_id = 9
as_u8 duplicate_order_id = 10
as_u8 post_only_would_cross = 11
as_u8 self_trade_prevented = 12
as_u8 market_order_in_empty_book = 13
as_u8 unknown_account = 14
as_u8 malformed_message = 15

unfoldable pub try_from : ℕ → Result RejectReasonError RejectReason
try_from v =
    if v == 1
    then ok kill_switched
    else if v == 2
    then ok invalid_price
    else if v == 3
    then ok invalid_qty
    else if v == 4
    then ok tick_violation
    else if v == 5
    then ok lot_violation
    else if v == 6
    then ok price_band
    else if v == 7
    then ok max_open_orders
    else if v == 8
    then ok max_notional
    else if v == 9
    then ok unknown_order_id
    else if v == 10
    then ok duplicate_order_id
    else if v == 11
    then ok post_only_would_cross
    else if v == 12
    then ok self_trade_prevented
    else if v == 13
    then ok market_order_in_empty_book
    else if v == 14
    then ok unknown_account
    else if v == 15
    then ok malformed_message
    else err (unknown v)

-- Each RejectReason is read back from its byte, and no other byte is read.
pub RejectReason-IsCode : IsCode as_u8 try_from
unfolding as_u8 try_from
RejectReason-IsCode = record {
  decode-encode = elim [
    | kill_switched ↦ refl
    | invalid_price ↦ refl
    | invalid_qty ↦ refl
    | tick_violation ↦ refl
    | lot_violation ↦ refl
    | price_band ↦ refl
    | max_open_orders ↦ refl
    | max_notional ↦ refl
    | unknown_order_id ↦ refl
    | duplicate_order_id ↦ refl
    | post_only_would_cross ↦ refl
    | self_trade_prevented ↦ refl
    | market_order_in_empty_book ↦ refl
    | unknown_account ↦ refl
    | malformed_message ↦ refl
  ];
  encode_of_decode = λ v a h. ground arith;
  is_byte = elim [
    | kill_switched ↦ omega arith
    | invalid_price ↦ omega arith
    | invalid_qty ↦ omega arith
    | tick_violation ↦ omega arith
    | lot_violation ↦ omega arith
    | price_band ↦ omega arith
    | max_open_orders ↦ omega arith
    | max_notional ↦ omega arith
    | unknown_order_id ↦ omega arith
    | duplicate_order_id ↦ omega arith
    | post_only_would_cross ↦ omega arith
    | self_trade_prevented ↦ omega arith
    | market_order_in_empty_book ↦ omega arith
    | unknown_account ↦ omega arith
    | malformed_message ↦ omega arith
  ];
}
