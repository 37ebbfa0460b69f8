-- ===== src/Engine/Fills.antt =====
-- `emit_fills_for_taker` and `emit_stp_cancels` of crates/engine/src/engine.rs: the reports of a
-- match, and what they do to the registry and the risk state.
use hft_clob_core.Prelude.{
  ℕ, ◌-◌, Bool, true, false, List, [], ◌∷◌, Option, none, some, get_or, to_option, ◌==◌,
  if◌then◌else◌,
}
use hft_clob_core.Collections.HashMap
use hft_clob_core.Domain.Side
use hft_clob_core.Domain.Price.{Price}
use hft_clob_core.Domain.Qty
use hft_clob_core.Domain.Qty.{Qty}
use hft_clob_core.Domain.OrderId.{OrderId}
use hft_clob_core.Domain.AccountId.{AccountId}
use hft_clob_core.Domain.ExecState.{ExecState}
use hft_clob_core.Domain.CancelReason
use hft_clob_core.Matching.Types.{Fill, StpCancellation, IdGenerator}
use hft_clob_core.Risk.{on_fill, on_order_removed, notional_of}
use hft_clob_core.Wire.Outbound.{RecvTs}
use hft_clob_core.Engine.{Engine, Clock, OrderRegistryEntry, drop_entry}
use hft_clob_core.Engine.Reports.{
  emit_trade_print_for_fill, emit_exec_report_fill, emit_exec_report_cancelled,
}

abbrev pub account_of_entry : Option OrderRegistryEntry → AccountId → AccountId
account_of_entry none taker_account = taker_account
account_of_entry (some entry) taker_account = entry.account_id

-- What the maker has left after a fill: nothing if it was filled whole.
unfoldable pub maker_leaves : Bool → Option OrderRegistryEntry → Qty → Option Qty
maker_leaves true entry fill_qty = none
maker_leaves false none fill_qty = none
maker_leaves false (some entry) fill_qty = to_option (Qty.new (entry.qty - fill_qty))

unfoldable pub taker_leaves : ℕ → Option Qty
taker_leaves remaining = if remaining == 0 then none else to_option (Qty.new remaining)

abbrev pub fill_state : Bool → ExecState
fill_state true = ExecState.filled
fill_state false = ExecState.partially_filled

-- The entry of a maker after a fill of a part of it.
unfoldable pub reduced_entry : Price → Qty → OrderRegistryEntry → OrderRegistryEntry
reduced_entry price fill_qty entry = record entry {
  qty = get_or (to_option (Qty.new (entry.qty - fill_qty))) entry.qty;
  notional = entry.notional - notional_of price fill_qty;
}

module _ {L G C : Type 0} where
  unfoldable pub reduce_entry :
      OrderId → Price → Qty → Option OrderRegistryEntry → Engine L G C → Engine L G C
  reduce_entry i price fill_qty none e = e
  reduce_entry i price fill_qty (some entry) e = record e {
    registry = HashMap.insert i (reduced_entry price fill_qty entry) e.registry;
    risk = on_order_removed entry.account_id (notional_of price fill_qty) e.risk;
  }

  unfoldable pub set_last_trade : Price → Engine L G C → Engine L G C
  set_last_trade price e = record e { risk = on_fill price e.risk }

  unfoldable pub settle_maker : Fill → Engine L G C → Engine L G C
  settle_maker fill e =
      if fill.maker_fully_filled
      then drop_entry fill.maker_order_id e
      else reduce_entry fill.maker_order_id fill.price fill.qty (e.registry fill.maker_order_id) e

module _ {L G C : Type 0} ⦃gen : IdGenerator G⦄ ⦃clk : Clock C⦄ where
  -- The trade print and the two reports of a fill; `remaining` is what the taker has left after it.
  unfoldable pub report_fill : OrderId → AccountId → Fill → ℕ → RecvTs → Engine L G C → Engine L G C
  report_fill taker_order_id taker_account fill remaining recv_ts e =
      let maker = e.registry fill.maker_order_id in
      emit_exec_report_fill taker_order_id taker_account (fill_state (remaining == 0)) fill.price
        fill.qty (taker_leaves remaining) recv_ts
        (emit_exec_report_fill fill.maker_order_id (account_of_entry maker taker_account)
          (fill_state fill.maker_fully_filled) fill.price fill.qty
          (maker_leaves fill.maker_fully_filled maker fill.qty) recv_ts
          (emit_trade_print_for_fill fill (Side.opposite fill.maker_side) e))

  unfoldable pub emit_fills :
      OrderId → AccountId → RecvTs → List Fill → ℕ → Engine L G C → Engine L G C
  emit_fills taker_order_id taker_account recv_ts [] lots e = e
  emit_fills taker_order_id taker_account recv_ts (fill ∷ fills) lots e =
      let remaining = lots - fill.qty in
      emit_fills taker_order_id taker_account recv_ts fills remaining (
        settle_maker fill (
          set_last_trade fill.price
            (report_fill taker_order_id taker_account fill remaining recv_ts e)))

  unfoldable pub emit_fills_for_taker :
      OrderId → AccountId → Qty → RecvTs → Engine L G C → Engine L G C
  emit_fills_for_taker taker_order_id taker_account taker_qty recv_ts e =
      emit_fills taker_order_id taker_account recv_ts e.fills_buf taker_qty e

  unfoldable pub emit_stp : RecvTs → List StpCancellation → Engine L G C → Engine L G C
  emit_stp recv_ts [] e = e
  emit_stp recv_ts (stp ∷ stps) e = emit_stp recv_ts stps (
      drop_entry stp.order_id (
        emit_exec_report_cancelled stp.order_id stp.account_id CancelReason.self_trade_prevented
          recv_ts e))

  unfoldable pub emit_stp_cancels : RecvTs → Engine L G C → Engine L G C
  emit_stp_cancels recv_ts e = emit_stp recv_ts e.stp_buf e
