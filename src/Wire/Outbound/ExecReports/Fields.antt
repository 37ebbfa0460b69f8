-- ===== src/Wire/Outbound/ExecReports/Fields.antt =====
-- What crates/wire/src/outbound/exec_report.rs writes of each optional field, and what it reads back.
use hft_clob_core.Prelude.{
  ℕ, ◌^◌, ◌≤◌, ◌<◌, ◌≡◌, refl, Bool, true, false, ◌&&◌, ok, Option, none, some, is_some, get_or,
  arith,
}
use hft_clob_core.Prelude.Int.{ℤ, IsI64}
use hft_clob_core.Domain.ExecState.{
  ExecState, accepted, rejected, partially_filled, filled, cancelled, replaced,
}
use hft_clob_core.Domain.RejectReason
use hft_clob_core.Domain.RejectReason.{RejectReason, RejectReason-IsCode}
use hft_clob_core.Domain.CancelReason
use hft_clob_core.Domain.CancelReason.{CancelReason, CancelReason-IsCode}
use hft_clob_core.Domain.Price
use hft_clob_core.Domain.Price.{Price, IsPrice}
use hft_clob_core.Domain.Qty
use hft_clob_core.Domain.Qty.{Qty, IsQty}
use hft_clob_core.Domain.OrderId.{IsOrderId}
use hft_clob_core.Domain.AccountId.{IsAccountId}
use hft_clob_core.Wire.Outbound.{ExecReport}
use hft_clob_core.Wire.Outbound.ExecReports.{
  ExecReportWire, coherent, validate_coherent, optional, optional_price, read_reject, read_cancel,
  read_qty, reject_raw, cancel_raw, pair_raw, fill_raw, leaves_raw,
}

-- The widths of the fields.
pub record FitsExecReport (w : ExecReportWire) : Type 0 where
  pub engine_seq : w.engine_seq < 2 ^ 64
  pub order_id : w.order_id < 2 ^ 64
  pub account_id : w.account_id < 2 ^ 32
  pub state : w.state < 256
  pub reject_reason : w.reject_reason < 256
  pub cancel_reason : w.cancel_reason < 256
  pub pad0 : w.pad0 < 256
  pub fill_price : IsI64 w.fill_price
  pub fill_qty : w.fill_qty < 2 ^ 64
  pub leaves_qty : w.leaves_qty < 2 ^ 64
  pub recv_ts : w.recv_ts < 2 ^ 64
  pub emit_ts : w.emit_ts < 2 ^ 64

abbrev pub IfSome : {A : Type 0} → (A → Type 0) → Option A → Type 0
IfSome P none = Unit {0}
IfSome P (some a) = P a

pub record IsExecReport (m : ExecReport) : Type 0 where
  pub engine_seq : m.engine_seq < 2 ^ 64
  pub order_id : IsOrderId m.order_id
  pub account_id : IsAccountId m.account_id
  pub fill_price : IfSome IsPrice m.fill_price
  pub fill_qty : IfSome IsQty m.fill_qty
  pub leaves_qty : IfSome IsQty m.leaves_qty
  pub recv_ts : IsI64 m.recv_ts
  pub emit_ts : IsI64 m.emit_ts

-- The fields that a state has.
abbrev pub carries_fill : ExecState → Bool
carries_fill accepted = false
carries_fill rejected = false
carries_fill partially_filled = true
carries_fill filled = true
carries_fill cancelled = false
carries_fill replaced = false

abbrev pub carries_leaves : ExecState → Bool
carries_leaves accepted = true
carries_leaves rejected = false
carries_leaves partially_filled = true
carries_leaves filled = false
carries_leaves cancelled = false
carries_leaves replaced = false

abbrev pub carries_reject : ExecState → Bool
carries_reject accepted = false
carries_reject rejected = true
carries_reject partially_filled = false
carries_reject filled = false
carries_reject cancelled = false
carries_reject replaced = false

abbrev pub carries_cancel : ExecState → Bool
carries_cancel accepted = false
carries_cancel rejected = false
carries_cancel partially_filled = false
carries_cancel filled = false
carries_cancel cancelled = true
carries_cancel replaced = true

abbrev pub kept : {A : Type 0} → Bool → Option A → Option A
kept true x = x
kept false x = none

-- What is left of a report when the fields that its state does not have are missing.
unfoldable pub canonical : ExecReport → ExecReport
canonical m = record m {
  fill_price = kept (carries_fill m.state) m.fill_price;
  fill_qty = kept (carries_fill m.state) m.fill_qty;
  leaves_qty = kept (carries_leaves m.state) m.leaves_qty;
  reject_reason = kept (carries_reject m.state) m.reject_reason;
  cancel_reason = kept (carries_cancel m.state) m.cancel_reason;
}

reject_byte : (r : RejectReason) → (1 ≤ RejectReason.as_u8 r) × (RejectReason.as_u8 r < 256)
unfolding RejectReason.as_u8
reject_byte r = ground arith

cancel_byte : (r : CancelReason) → (1 ≤ CancelReason.as_u8 r) × (CancelReason.as_u8 r < 256)
unfolding CancelReason.as_u8
cancel_byte r = ground arith

pub optional_reject :
    (s : ExecState) (r : Option RejectReason)
    → (reject_raw s r < 256)
      × (optional (reject_raw s r) read_reject ≡ ok (kept (carries_reject s) r))
unfolding optional reject_raw
optional_reject rejected (some r) =
    ground (arith, reject_byte r, RejectReason-IsCode.decode-encode r)
optional_reject rejected none = (omega arith, refl)
optional_reject accepted r = (omega arith, refl)
optional_reject partially_filled r = (omega arith, refl)
optional_reject filled r = (omega arith, refl)
optional_reject cancelled r = (omega arith, refl)
optional_reject replaced r = (omega arith, refl)

pub optional_cancel :
    (s : ExecState) (r : Option CancelReason)
    → (cancel_raw s r < 256)
      × (optional (cancel_raw s r) read_cancel ≡ ok (kept (carries_cancel s) r))
unfolding optional cancel_raw
optional_cancel cancelled (some r) =
    ground (arith, cancel_byte r, CancelReason-IsCode.decode-encode r)
optional_cancel cancelled none = (omega arith, refl)
optional_cancel replaced (some r) =
    ground (arith, cancel_byte r, CancelReason-IsCode.decode-encode r)
optional_cancel replaced none = (omega arith, refl)
optional_cancel accepted r = (omega arith, refl)
optional_cancel rejected r = (omega arith, refl)
optional_cancel partially_filled r = (omega arith, refl)
optional_cancel filled r = (omega arith, refl)

-- An optional quantity is written as its lots, and 0 without it.
optional_qty :
    (q : Option Qty)
    → IfSome IsQty q
    → (get_or q 0 < 2 ^ 64) × (optional (get_or q 0) read_qty ≡ ok q)
unfolding optional
optional_qty none h = (omega arith, refl)
optional_qty (some q) h = ground (arith, Qty.new_lots q h.0)

pub optional_leaves :
    (s : ExecState) (q : Option Qty)
    → IfSome IsQty q
    → (leaves_raw s q < 2 ^ 64)
      × (optional (leaves_raw s q) read_qty ≡ ok (kept (carries_leaves s) q))
unfolding optional leaves_raw
optional_leaves accepted q h = optional_qty q h
optional_leaves partially_filled q h = optional_qty q h
optional_leaves filled q h = (omega arith, refl)
optional_leaves rejected q h = (omega arith, refl)
optional_leaves cancelled q h = (omega arith, refl)
optional_leaves replaced q h = (omega arith, refl)

-- A fill that is read back: price and quantity, or neither where the state has no fill.
unfoldable pub ReadsFill : ExecState → Option Price → Option Qty → ℤ × ℕ → Type 0
ReadsFill s p q (raw_price, raw_qty) =
    IsI64 raw_price
    × (raw_qty < 2 ^ 64)
    × (optional_price raw_price ≡ ok (kept (carries_fill s) p))
    × (optional raw_qty read_qty ≡ ok (kept (carries_fill s) q))

fill_pair :
    (s : ExecState) (p : Option Price) (q : Option Qty)
    → carries_fill s ≡ true
    → IfSome IsPrice p
    → IfSome IsQty q
    → (is_some p && is_some q) ≡ true
    → ReadsFill s p q (pair_raw p q)
unfolding ReadsFill optional optional_price
fill_pair s none q c hp hq h = cc
fill_pair s (some p) none c hp hq h = cc
fill_pair s (some p) (some q) c hp hq h = ground (arith, Qty.new_lots q hq.0, Price.new_ticks p hp)

optional_fill :
    (s : ExecState) (p : Option Price) (q leaves : Option Qty) (r : Option RejectReason)
    → (x : Option CancelReason) → IfSome IsPrice p
    → IfSome IsQty q
    → coherent s (kept (carries_fill s) p) (kept (carries_fill s) q) leaves r x ≡ ok tt
    → ReadsFill s p q (fill_raw s p q)
unfolding ReadsFill optional optional_price fill_raw coherent
optional_fill accepted p q leaves r x hp hq h = (omega arith, omega arith, refl, refl)
optional_fill rejected p q leaves r x hp hq h = (omega arith, omega arith, refl, refl)
optional_fill cancelled p q leaves r x hp hq h = (omega arith, omega arith, refl, refl)
optional_fill replaced p q leaves r x hp hq h = (omega arith, omega arith, refl, refl)
optional_fill partially_filled p q leaves r x hp hq h =
    fill_pair partially_filled p q refl hp hq (ground arith)
optional_fill filled p q leaves r x hp hq h = fill_pair filled p q refl hp hq (ground arith)

pub fill_of :
    (m : ExecReport)
    → IsExecReport m
    → validate_coherent (canonical m) ≡ ok tt
    → ReadsFill m.state m.fill_price m.fill_qty (fill_raw m.state m.fill_price m.fill_qty)
unfolding validate_coherent canonical
fill_of m v h = optional_fill m.state m.fill_price m.fill_qty _ _ _ v.fill_price v.fill_qty h
