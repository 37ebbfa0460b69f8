-- ===== src/Engine/Reports.antt =====
-- The messages that the engine of crates/engine/src/engine.rs emits.
use hft_clob_core.Prelude.{ℕ, Option, none, some, get_or, to_option}
use hft_clob_core.Domain.Side.{Side, bid, ask}
use hft_clob_core.Domain.Price.{Price}
use hft_clob_core.Domain.Qty
use hft_clob_core.Domain.Qty.{Qty}
use hft_clob_core.Domain.OrderId.{OrderId}
use hft_clob_core.Domain.AccountId.{AccountId}
use hft_clob_core.Domain.ExecState.{ExecState}
use hft_clob_core.Domain.RejectReason.{RejectReason}
use hft_clob_core.Domain.CancelReason.{CancelReason}
use hft_clob_core.Matching.Types.{Fill, IdGenerator}
use hft_clob_core.Matching.Level.{PriceLevel}
use hft_clob_core.Matching.Book.{Book, best_bid, best_ask, side_qty}
use hft_clob_core.Wire.Outbound.{
  RecvTs, exec_report, trade_print, book_update_top, book_update_l2_delta,
}
use hft_clob_core.Engine.{Engine, Clock, emit}

module _ {L G C : Type 0} ⦃gen : IdGenerator G⦄ ⦃clk : Clock C⦄ where
  unfoldable pub emit_rejected :
      OrderId → AccountId → RejectReason → RecvTs → Engine L G C → Engine L G C
  emit_rejected order_id account_id reason recv_ts = emit λ seq emit_ts. exec_report (record {
    engine_seq = seq;
    order_id = order_id;
    account_id = account_id;
    state = ExecState.rejected;
    fill_price = none;
    fill_qty = none;
    leaves_qty = none;
    reject_reason = some reason;
    cancel_reason = none;
    recv_ts = recv_ts;
    emit_ts = emit_ts;
  })

  -- A mass cancel has no order id, and is rejected under the id 1.
  unfoldable pub emit_rejected_mass :
      AccountId → RejectReason → RecvTs → Engine L G C → Engine L G C
  emit_rejected_mass = emit_rejected 1

  unfoldable pub emit_exec_report_accepted :
      OrderId → AccountId → Qty → RecvTs → Engine L G C → Engine L G C
  emit_exec_report_accepted order_id account_id leaves_qty recv_ts = emit λ seq emit_ts.
      exec_report (record {
        engine_seq = seq;
        order_id = order_id;
        account_id = account_id;
        state = ExecState.accepted;
        fill_price = none;
        fill_qty = none;
        leaves_qty = some leaves_qty;
        reject_reason = none;
        cancel_reason = none;
        recv_ts = recv_ts;
        emit_ts = emit_ts;
      })

  unfoldable pub emit_exec_report_cancelled :
      OrderId → AccountId → CancelReason → RecvTs → Engine L G C → Engine L G C
  emit_exec_report_cancelled order_id account_id reason recv_ts = emit λ seq emit_ts.
      exec_report (record {
        engine_seq = seq;
        order_id = order_id;
        account_id = account_id;
        state = ExecState.cancelled;
        fill_price = none;
        fill_qty = none;
        leaves_qty = none;
        reject_reason = none;
        cancel_reason = some reason;
        recv_ts = recv_ts;
        emit_ts = emit_ts;
      })

  unfoldable pub emit_exec_report_replaced :
      OrderId → AccountId → Qty → RecvTs → Engine L G C → Engine L G C
  emit_exec_report_replaced order_id account_id new_qty recv_ts = emit λ seq emit_ts.
      exec_report (record {
        engine_seq = seq;
        order_id = order_id;
        account_id = account_id;
        state = ExecState.replaced;
        fill_price = none;
        fill_qty = none;
        leaves_qty = some new_qty;
        reject_reason = none;
        cancel_reason = some CancelReason.replaced;
        recv_ts = recv_ts;
        emit_ts = emit_ts;
      })

  unfoldable pub emit_exec_report_fill :
      OrderId
      → AccountId
      → ExecState
      → Price
      → Qty
      → Option Qty
      → RecvTs
      → Engine L G C
      → Engine L G C
  emit_exec_report_fill order_id account_id state fill_price fill_qty leaves_qty recv_ts =
      emit λ seq emit_ts. exec_report (record {
        engine_seq = seq;
        order_id = order_id;
        account_id = account_id;
        state = state;
        fill_price = some fill_price;
        fill_qty = some fill_qty;
        leaves_qty = leaves_qty;
        reject_reason = none;
        cancel_reason = none;
        recv_ts = recv_ts;
        emit_ts = emit_ts;
      })

  unfoldable pub emit_trade_print_for_fill : Fill → Side → Engine L G C → Engine L G C
  emit_trade_print_for_fill fill aggressor_side = emit λ seq emit_ts. trade_print (record {
    engine_seq = seq;
    trade_id = fill.trade_id;
    price = fill.price;
    qty = fill.qty;
    aggressor_side = aggressor_side;
    emit_ts = emit_ts;
  })

  -- A quantity of 0 is no `Qty`, and removes the level; `Qty::new` accepts every other one.
  unfoldable pub emit_l2_delta : Side → Price → ℕ → Engine L G C → Engine L G C
  emit_l2_delta side price new_qty = emit λ seq emit_ts. book_update_l2_delta (record {
    engine_seq = seq;
    price = price;
    new_qty = to_option (Qty.new new_qty);
    side = side;
    emit_ts = emit_ts;
  })

module _ {L : Type 0} ⦃pl : PriceLevel L⦄ where
  -- The total of the side, whatever the price.
  unfoldable pub qty_at : Book L → Side → Price → ℕ
  qty_at book side price = side_qty side book

  unfoldable pub top_of : Book L → Side → Option Price → Option (Price × Qty)
  unfolding qty_at
  top_of book side none = none
  top_of book side (some p) =
      some (p, get_or (to_option (Qty.new (qty_at book side p))) Qty.min_qty)

module _ {L G C : Type 0} ⦃pl : PriceLevel L⦄ ⦃gen : IdGenerator G⦄ ⦃clk : Clock C⦄ where
  unfoldable pub emit_book_update_top : Engine L G C → Engine L G C
  emit_book_update_top e =
      emit
        (λ seq emit_ts. book_update_top (record {
          engine_seq = seq;
          bid = top_of e.book bid (best_bid e.book);
          ask = top_of e.book ask (best_ask e.book);
          emit_ts = emit_ts;
        }))
        e
