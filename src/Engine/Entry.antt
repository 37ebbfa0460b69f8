-- ===== src/Engine/Entry.antt =====
-- `handle_new_order` of crates/engine/src/engine.rs, and the checks that every order command passes.
use hft_clob_core.Prelude.{Bool, true, false, Option, none, some, Result, ok, err, if◌then◌else◌}
use hft_clob_core.Collections.HashMap
use hft_clob_core.Domain.Side
use hft_clob_core.Domain.Price.{Price}
use hft_clob_core.Domain.Qty.{Qty}
use hft_clob_core.Domain.Tif.{Tif, gtc, ioc, post_only}
use hft_clob_core.Domain.RejectReason.{RejectReason}
use hft_clob_core.Domain.CancelReason
use hft_clob_core.Matching.Types.{
  BookError, RestingOrder, AggressiveOrder, MatchResult, IdGenerator,
}
use hft_clob_core.Matching.Level.{PriceLevel}
use hft_clob_core.Matching.Book.{best_of}
use hft_clob_core.Matching.Resting.{add_resting}
use hft_clob_core.Matching.Walk.{match_aggressive}
use hft_clob_core.Risk.{check_new_order, on_order_resting, on_order_removed, notional_of}
use hft_clob_core.Wire.Inbound.{NewOrder}
use hft_clob_core.Wire.Outbound.{RecvTs}
use hft_clob_core.Engine.{
  Engine, Clock, OrderRegistryEntry, session_of, with_session, clear_buffers,
}
use hft_clob_core.Engine.Reports.{
  emit_rejected, emit_exec_report_accepted, emit_exec_report_cancelled,
}
use hft_clob_core.Engine.Fills.{emit_fills_for_taker, emit_stp_cancels}

module _ {L G C : Type 0} where
  -- Stages 1 and 2 of a handler: the answer of the risk check, and the kill switch once more.
  unfoldable pub guarded :
      Result RejectReason (Unit {0})
      → (RejectReason → Engine L G C → Engine L G C)
      → (Engine L G C → Engine L G C)
      → Engine L G C
      → Engine L G C
  guarded (err reason) reject proceed e = reject reason e
  guarded (ok _) reject proceed e =
      if e.risk.kill_switch then reject RejectReason.kill_switched e else proceed e

unfoldable pub aggressive_order : NewOrder → AggressiveOrder
aggressive_order msg = record {
  order_id = msg.order_id;
  account_id = msg.account_id;
  side = msg.side;
  price = msg.price;
  qty = msg.qty;
  tif = msg.tif;
}

unfoldable pub resting_order : NewOrder → Price → Qty → RestingOrder
resting_order msg price remaining = record {
  order_id = msg.order_id;
  account_id = msg.account_id;
  side = msg.side;
  price = price;
  qty = remaining;
  tif = msg.tif;
}

unfoldable pub entry_of : NewOrder → Price → Qty → OrderRegistryEntry
entry_of msg price remaining = record {
  account_id = msg.account_id;
  side = msg.side;
  qty = remaining;
  notional = notional_of price remaining;
}

module _ {L G C : Type 0} ⦃pl : PriceLevel L⦄ ⦃gen : IdGenerator G⦄ ⦃clk : Clock C⦄ (msg : NewOrder)
    (recv_ts : RecvTs) where
  abbrev pub reject_new : RejectReason → Engine L G C → Engine L G C
  reject_new reason = emit_rejected msg.order_id msg.account_id reason recv_ts

  abbrev pub cancel_taker : CancelReason.CancelReason → Engine L G C → Engine L G C
  cancel_taker reason = emit_exec_report_cancelled msg.order_id msg.account_id reason recv_ts

  -- After `add_resting`.
  unfoldable pub finish_resting :
      Price → Qty → Result BookError (Unit {0}) → Engine L G C → Engine L G C
  finish_resting price remaining (ok _) e =
      emit_exec_report_accepted msg.order_id msg.account_id remaining recv_ts (record e {
        registry = HashMap.insert msg.order_id (entry_of msg price remaining) e.registry;
      })
  finish_resting price remaining (err _) e =
      reject_new RejectReason.duplicate_order_id
        (record e { risk = on_order_removed msg.account_id (notional_of price remaining) e.risk })

  -- After `on_order_resting`.
  unfoldable pub rest_counted :
      Price → Qty → Result RejectReason (Unit {0}) → Engine L G C → Engine L G C
  rest_counted price remaining (err reason) e = reject_new reason e
  rest_counted price remaining (ok _) e =
      let (book, added) = add_resting (resting_order msg price remaining) e.book in
      finish_resting price remaining added (record e { book = book })

  unfoldable pub rest_taker : Price → Qty → Engine L G C → Engine L G C
  rest_taker price remaining e =
      let (risk, counted) = on_order_resting msg.account_id (notional_of price remaining) e.risk in
      rest_counted price remaining counted (record e { risk = risk })

  -- The rest of the taker, by its time in force and its price.
  unfoldable pub route_rest : Tif → Option Price → Qty → Engine L G C → Engine L G C
  route_rest ioc price remaining e = cancel_taker CancelReason.ioc_remaining e
  route_rest gtc (some price) remaining e = rest_taker price remaining e
  route_rest gtc none remaining e = cancel_taker CancelReason.ioc_remaining e
  route_rest post_only (some price) remaining e = rest_taker price remaining e
  route_rest post_only none remaining e = cancel_taker CancelReason.ioc_remaining e

  unfoldable pub dispose_taker : Bool → Option Qty → Engine L G C → Engine L G C
  dispose_taker true remaining e = cancel_taker CancelReason.self_trade_prevented e
  dispose_taker false none e = e
  dispose_taker false (some remaining) e = route_rest msg.tif msg.price remaining e

  unfoldable pub after_match : MatchResult → Engine L G C → Engine L G C
  after_match result e =
      if result.taker_post_only_rejected
      then reject_new RejectReason.post_only_would_cross e
      else dispose_taker result.taker_stp_cancelled result.taker_remaining (
          emit_stp_cancels recv_ts
            (emit_fills_for_taker msg.order_id msg.account_id msg.qty recv_ts e))

  -- Stages 3 and 4.
  unfoldable pub match_new_order : Engine L G C → Engine L G C
  match_new_order e =
      let cleared = clear_buffers e in
      let (s, result) = match_aggressive (aggressive_order msg) (session_of cleared) in
      after_match result (with_session s cleared)

  unfoldable pub handle_new_order : Engine L G C → Engine L G C
  handle_new_order e =
      guarded (check_new_order msg (best_of (Side.opposite msg.side) e.book) e.risk) reject_new
        match_new_order e
