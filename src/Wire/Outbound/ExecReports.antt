-- ===== src/Wire/Outbound/ExecReports.antt =====
-- crates/wire/src/outbound/exec_report.rs: decoding and encoding of an execution report.
pub mod Fields
pub mod RoundTrip
use hft_clob_core.Prelude.{
  ℕ, ◌^◌, ◌≤◌, ◌<◌, ◌≡◌, refl, ◌∙◌, sym, ap, Bool, true, false, not, ◌&&◌, ◌||◌, Result, ok, err,
  ◌>>=◌, ◌>>◌, guard, ok_or, map_err, Option, none, some, is_some, get_or, List, ◌++◌, ◌==◌,
  if◌then◌else◌, length, arith,
}
use hft_clob_core.Prelude.Int.{ℤ, pos, negsuc, IsI64, as_u64, as_i64, as_u64-lt, as_i64-as_u64}
use hft_clob_core.Domain.Error
use hft_clob_core.Domain.ExecState
use hft_clob_core.Domain.ExecState.{
  ExecState, ExecState-IsCode, accepted, rejected, partially_filled, filled, cancelled, replaced,
}
use hft_clob_core.Domain.RejectReason
use hft_clob_core.Domain.RejectReason.{RejectReason, RejectReason-IsCode}
use hft_clob_core.Domain.CancelReason
use hft_clob_core.Domain.CancelReason.{CancelReason, CancelReason-IsCode}
use hft_clob_core.Domain.Price
use hft_clob_core.Domain.Price.{Price, IsPrice}
use hft_clob_core.Domain.Qty
use hft_clob_core.Domain.Qty.{Qty, IsQty}
use hft_clob_core.Domain.OrderId
use hft_clob_core.Domain.OrderId.{OrderId, IsOrderId}
use hft_clob_core.Domain.AccountId
use hft_clob_core.Domain.AccountId.{AccountId, IsAccountId}
use hft_clob_core.Wire.Error.{WireError, domain, inconsistent_payload, non_zero_pad, payload_size}
use hft_clob_core.Wire.Layout.{Layout, IsLayout}
use hft_clob_core.Wire.Outbound.{ExecReport}

pub record ExecReportWire : Type 0 where
  pub engine_seq : ℕ
  pub order_id : ℕ
  pub account_id : ℕ
  pub state : ℕ
  pub reject_reason : ℕ
  pub cancel_reason : ℕ
  pub pad0 : ℕ
  pub fill_price : ℤ
  pub fill_qty : ℕ
  pub leaves_qty : ℕ
  pub recv_ts : ℕ
  pub emit_ts : ℕ

-- The fields that must be there and those that must not, by the state.
unfoldable pub coherent :
    ExecState
    → Option Price
    → Option Qty
    → Option Qty
    → Option RejectReason
    → Option CancelReason
    → Result WireError (Unit {0})
coherent accepted price qty leaves reject cancel =
    guard (not (is_some price || is_some qty || is_some reject || is_some cancel))
      inconsistent_payload
    >> guard (is_some leaves) inconsistent_payload
coherent rejected price qty leaves reject cancel =
    guard (not (is_some price || is_some qty || is_some leaves || is_some cancel))
      inconsistent_payload
    >> guard (is_some reject) inconsistent_payload
coherent partially_filled price qty leaves reject cancel =
    guard (is_some price && is_some qty) inconsistent_payload
    >> guard (is_some leaves) inconsistent_payload
    >> guard (not (is_some reject || is_some cancel)) inconsistent_payload
coherent filled price qty leaves reject cancel =
    guard (is_some price && is_some qty) inconsistent_payload
    >> guard (not (is_some leaves)) inconsistent_payload
    >> guard (not (is_some reject || is_some cancel)) inconsistent_payload
coherent cancelled price qty leaves reject cancel =
    guard (not (is_some price || is_some qty || is_some leaves || is_some reject))
      inconsistent_payload
    >> guard (is_some cancel) inconsistent_payload
coherent replaced price qty leaves reject cancel =
    guard (not (is_some price || is_some qty || is_some leaves || is_some reject))
      inconsistent_payload
    >> guard (is_some cancel) inconsistent_payload

unfoldable pub validate_coherent : ExecReport → Result WireError (Unit {0})
unfolding coherent
validate_coherent m =
    coherent m.state m.fill_price m.fill_qty m.leaves_qty m.reject_reason m.cancel_reason

-- A field of which 0 says that it is missing.
unfoldable pub optional : {A : Type 0} → ℕ → (ℕ → Result WireError A) → Result WireError (Option A)
optional raw read = if raw == 0 then ok none else read raw >>= λ a. ok (some a)

unfoldable pub optional_price : ℤ → Result WireError (Option Price)
optional_price (pos n) =
    if n == 0
    then ok none
    else map_err (λ e. domain (Error.price e)) (Price.new (pos n)) >>= λ p. ok (some p)
optional_price (negsuc n) =
    map_err (λ e. domain (Error.price e)) (Price.new (negsuc n)) >>= λ p. ok (some p)

abbrev pub read_reject : ℕ → Result WireError RejectReason
read_reject v = map_err (λ e. domain (Error.reject_reason e)) (RejectReason.try_from v)

abbrev pub read_cancel : ℕ → Result WireError CancelReason
read_cancel v = map_err (λ e. domain (Error.cancel_reason e)) (CancelReason.try_from v)

abbrev pub read_qty : ℕ → Result WireError Qty
read_qty v = map_err (λ e. domain (Error.qty e)) (Qty.new v)

-- The checks of `parse`, in the order of the source.
unfoldable pub validate : ExecReportWire → Result WireError ExecReport
unfolding optional optional_price validate_coherent
validate w =
    guard (w.pad0 == 0) (non_zero_pad 23)
    >> (map_err (λ e. domain (Error.exec_state e)) (ExecState.try_from w.state) >>= λ state.
        map_err (λ e. domain (Error.order_id e)) (OrderId.new w.order_id) >>= λ order_id.
        map_err (λ e. domain (Error.account_id e)) (AccountId.new w.account_id) >>= λ account_id.
        optional w.reject_reason read_reject >>= λ reject_reason.
        optional w.cancel_reason read_cancel >>= λ cancel_reason.
        optional_price w.fill_price >>= λ fill_price. optional w.fill_qty read_qty >>= λ fill_qty.
        optional w.leaves_qty read_qty >>= λ leaves_qty.
        let msg : ExecReport = record {
          engine_seq = w.engine_seq;
          order_id = order_id;
          account_id = account_id;
          state = state;
          fill_price = fill_price;
          fill_qty = fill_qty;
          leaves_qty = leaves_qty;
          reject_reason = reject_reason;
          cancel_reason = cancel_reason;
          recv_ts = as_i64 w.recv_ts;
          emit_ts = as_i64 w.emit_ts;
        } in
        validate_coherent msg >> ok msg)

-- The fields that `encode` writes, by the state: the others become 0.
unfoldable pub reject_raw : ExecState → Option RejectReason → ℕ
reject_raw rejected none = 0
reject_raw rejected (some r) = RejectReason.as_u8 r
reject_raw accepted r = 0
reject_raw partially_filled r = 0
reject_raw filled r = 0
reject_raw cancelled r = 0
reject_raw replaced r = 0

unfoldable pub cancel_raw : ExecState → Option CancelReason → ℕ
cancel_raw cancelled none = 0
cancel_raw cancelled (some r) = CancelReason.as_u8 r
cancel_raw replaced none = 0
cancel_raw replaced (some r) = CancelReason.as_u8 r
cancel_raw accepted r = 0
cancel_raw rejected r = 0
cancel_raw partially_filled r = 0
cancel_raw filled r = 0

-- Price and quantity are written as a pair or not at all.
abbrev pub pair_raw : Option Price → Option Qty → ℤ × ℕ
pair_raw none q = (pos 0, 0)
pair_raw (some p) none = (pos 0, 0)
pair_raw (some p) (some q) = (pos p, q)

unfoldable pub fill_raw : ExecState → Option Price → Option Qty → ℤ × ℕ
fill_raw partially_filled p q = pair_raw p q
fill_raw filled p q = pair_raw p q
fill_raw accepted p q = (pos 0, 0)
fill_raw rejected p q = (pos 0, 0)
fill_raw cancelled p q = (pos 0, 0)
fill_raw replaced p q = (pos 0, 0)

unfoldable pub leaves_raw : ExecState → Option Qty → ℕ
leaves_raw accepted q = get_or q 0
leaves_raw partially_filled q = get_or q 0
leaves_raw filled q = 0
leaves_raw rejected q = 0
leaves_raw cancelled q = 0
leaves_raw replaced q = 0

unfoldable pub to_wire : ExecReport → ExecReportWire
to_wire m =
    let (fill_price, fill_qty) = fill_raw m.state m.fill_price m.fill_qty in
    record {
      engine_seq = m.engine_seq;
      order_id = m.order_id;
      account_id = m.account_id;
      state = ExecState.as_u8 m.state;
      reject_reason = reject_raw m.state m.reject_reason;
      cancel_reason = cancel_raw m.state m.cancel_reason;
      pad0 = 0;
      fill_price = fill_price;
      fill_qty = fill_qty;
      leaves_qty = leaves_raw m.state m.leaves_qty;
      recv_ts = as_u64 m.recv_ts;
      emit_ts = as_u64 m.emit_ts;
    }

module _ ⦃lay : Layout ExecReportWire⦄ where
  unfoldable pub parse : List ℕ → Result WireError ExecReport
  parse payload = ok_or (lay.ref_from_bytes payload) (payload_size 64 (length payload)) >>= validate

  unfoldable pub encode : ExecReport → List ℕ → List ℕ
  encode m out = out ++ lay.as_bytes (to_wire m)
