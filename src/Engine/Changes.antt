-- ===== src/Engine/Changes.antt =====
-- The other handlers of crates/engine/src/engine.rs: cancel, cancel-replace, mass cancel, kill
-- switch and snapshot.
use hft_clob_core.Prelude.{
  ℕ, Bool, true, false, List, [], ◌∷◌, Option, none, some, Result, ok, err, not, ◌==◌,
  if◌then◌else◌,
}
use hft_clob_core.Collections.HashMap
use hft_clob_core.Domain.Side.{Side, bid}
use hft_clob_core.Domain.Price.{Price}
use hft_clob_core.Domain.Qty
use hft_clob_core.Domain.Qty.{Qty}
use hft_clob_core.Domain.AccountId.{AccountId}
use hft_clob_core.Domain.RejectReason.{RejectReason}
use hft_clob_core.Domain.CancelReason
use hft_clob_core.Matching.Types.{
  BookError, MassCancellation, MatchResult, ReplaceOutcome, IdGenerator,
}
use hft_clob_core.Matching.Level.{PriceLevel}
use hft_clob_core.Matching.Book.{bid_levels, ask_levels}
use hft_clob_core.Matching.Resting.{cancel}
use hft_clob_core.Matching.Modify
use hft_clob_core.Matching.Modify.{replace}
use hft_clob_core.Risk.{
  check_cancel, check_cancel_replace, check_mass_cancel, on_order_resting, on_order_removed,
  notional_of, set_kill_switch,
}
use hft_clob_core.Wire.Inbound.{
  CancelOrder, CancelReplace, MassCancel, KillSwitchSet, KillSwitchState, SnapshotRequest, halt,
  resume,
}
use hft_clob_core.Wire.Outbound.{RecvTs, SnapshotLevel, snapshot_response}
use hft_clob_core.Engine.{
  Engine, Clock, OrderRegistryEntry, session_of, with_session, clear_buffers, drop_entry, emit,
}
use hft_clob_core.Engine.Reports.{
  emit_rejected, emit_rejected_mass, emit_exec_report_cancelled, emit_exec_report_replaced,
}
use hft_clob_core.Engine.Fills.{emit_fills_for_taker, emit_stp_cancels}
use hft_clob_core.Engine.Entry.{guarded}

-- Is the order registered, and for another account?
abbrev pub is_foreign : Option OrderRegistryEntry → AccountId → Bool
is_foreign none account = false
is_foreign (some entry) account = not (entry.account_id == account)

module _ {L G C : Type 0} ⦃pl : PriceLevel L⦄ ⦃gen : IdGenerator G⦄ ⦃clk : Clock C⦄
    (msg : CancelOrder) (recv_ts : RecvTs) where
  abbrev pub reject_cancel : RejectReason → Engine L G C → Engine L G C
  reject_cancel reason = emit_rejected msg.order_id msg.account_id reason recv_ts

  -- After `Book::cancel`.
  unfoldable pub after_cancel : Result BookError (Side × Price) → Engine L G C → Engine L G C
  after_cancel (ok _) e =
      emit_exec_report_cancelled msg.order_id msg.account_id CancelReason.user_requested recv_ts
        (drop_entry msg.order_id e)
  after_cancel (err _) e = reject_cancel RejectReason.unknown_order_id e

  unfoldable pub cancel_own : Engine L G C → Engine L G C
  cancel_own e =
      if is_foreign (e.registry msg.order_id) msg.account_id
      then reject_cancel RejectReason.unknown_order_id e
      else let (book, cancelled) = cancel msg.order_id e.book in
        after_cancel cancelled (record e { book = book })

  unfoldable pub handle_cancel_order : Engine L G C → Engine L G C
  handle_cancel_order e = guarded (check_cancel msg e.risk) reject_cancel cancel_own e

abbrev pub is_post_only_rejected : Option MatchResult → Bool
is_post_only_rejected none = false
is_post_only_rejected (some r) = r.taker_post_only_rejected

abbrev pub side_of_entry : Option OrderRegistryEntry → Side
side_of_entry none = bid
side_of_entry (some entry) = entry.side

module _ {L G C : Type 0} where
  abbrev pub refund_entry : Option OrderRegistryEntry → Engine L G C → Engine L G C
  refund_entry none e = e
  refund_entry (some entry) e = record e {
    risk = on_order_removed entry.account_id entry.notional e.risk;
  }

module _ {L G C : Type 0} ⦃pl : PriceLevel L⦄ ⦃gen : IdGenerator G⦄ ⦃clk : Clock C⦄
    (msg : CancelReplace) (recv_ts : RecvTs) where
  abbrev pub reject_replace : RejectReason → Engine L G C → Engine L G C
  reject_replace reason = emit_rejected msg.order_id msg.account_id reason recv_ts

  -- After `on_order_resting`: the rest is registered, or taken off the book again.
  unfoldable pub register_rest :
      Option OrderRegistryEntry → Qty → Result RejectReason (Unit {0}) → Engine L G C → Engine L G C
  register_rest old_entry remaining (err reason) e =
      reject_replace reason (record e { book = (cancel msg.order_id e.book).0 })
  register_rest old_entry remaining (ok _) e = record e {
    registry =
        HashMap.insert msg.order_id
          (record {
            account_id = msg.account_id;
            side = side_of_entry old_entry;
            qty = remaining;
            notional = notional_of msg.new_price remaining;
          })
          e.registry;
  }

  unfoldable pub dispose_replaced :
      Option OrderRegistryEntry → Bool → Option Qty → Engine L G C → Engine L G C
  dispose_replaced old_entry true remaining e =
      emit_exec_report_cancelled msg.order_id msg.account_id CancelReason.self_trade_prevented
        recv_ts e
  dispose_replaced old_entry false none e = e
  dispose_replaced old_entry false (some remaining) e =
      let (risk, counted) =
        on_order_resting msg.account_id (notional_of msg.new_price remaining) e.risk in
      register_rest old_entry remaining counted (record e { risk = risk })

  -- An order that kept its place has not been matched, and rests whole.
  unfoldable pub dispose_match :
      Option OrderRegistryEntry → Option MatchResult → Engine L G C → Engine L G C
  dispose_match old_entry none e = dispose_replaced old_entry false (some msg.new_qty) e
  dispose_match old_entry (some r) e =
      dispose_replaced old_entry r.taker_stp_cancelled r.taker_remaining e

  unfoldable pub commit_replace :
      Option OrderRegistryEntry → Option MatchResult → Engine L G C → Engine L G C
  commit_replace old_entry match_result e =
      let refunded = refund_entry old_entry e in
      let forgotten = record refunded {
        registry = HashMap.remove msg.order_id refunded.registry;
      } in
      dispose_match old_entry match_result (
        emit_stp_cancels recv_ts (
          emit_fills_for_taker msg.order_id msg.account_id msg.new_qty recv_ts
            (emit_exec_report_replaced msg.order_id msg.account_id msg.new_qty recv_ts forgotten)))

  -- After `Book::replace`.
  unfoldable pub after_replace :
      Option OrderRegistryEntry → Result BookError ReplaceOutcome → Engine L G C → Engine L G C
  after_replace old_entry (err _) e = reject_replace RejectReason.unknown_order_id e
  after_replace old_entry (ok outcome) e =
      if is_post_only_rejected outcome.match_result
      then reject_replace RejectReason.post_only_would_cross e
      else commit_replace old_entry outcome.match_result e

  unfoldable pub replace_own : Engine L G C → Engine L G C
  replace_own e =
      if is_foreign (e.registry msg.order_id) msg.account_id
      then reject_replace RejectReason.unknown_order_id e
      else let cleared = clear_buffers e in
        let (s, outcome) = replace msg.order_id msg.new_price msg.new_qty (session_of cleared) in
        after_replace (e.registry msg.order_id) outcome (with_session s cleared)

  unfoldable pub handle_cancel_replace : Engine L G C → Engine L G C
  handle_cancel_replace e = guarded (check_cancel_replace msg e.risk) reject_replace replace_own e

module _ {L G C : Type 0} ⦃pl : PriceLevel L⦄ ⦃gen : IdGenerator G⦄ ⦃clk : Clock C⦄
    (msg : MassCancel) (recv_ts : RecvTs) where
  unfoldable pub report_mass : List MassCancellation → Engine L G C → Engine L G C
  report_mass [] e = e
  report_mass (mc ∷ mcs) e = report_mass mcs (
      emit_exec_report_cancelled mc.order_id mc.account_id CancelReason.mass_cancel recv_ts
        (drop_entry mc.order_id e))

  unfoldable pub cancel_account : Engine L G C → Engine L G C
  cancel_account e =
      let (book, out) = Modify.mass_cancel msg.account_id (e.book, []) in
      report_mass out (record e { book = book; mass_buf = out })

  unfoldable pub handle_mass_cancel : Engine L G C → Engine L G C
  handle_mass_cancel e =
      guarded (check_mass_cancel msg e.risk)
        (λ reason. emit_rejected_mass msg.account_id reason recv_ts) cancel_account e

abbrev pub is_halt : KillSwitchState → Bool
is_halt halt = true
is_halt resume = false

module _ {L G C : Type 0} where
  unfoldable pub handle_kill_switch : KillSwitchSet → Engine L G C → Engine L G C
  handle_kill_switch msg e = record e { risk = set_kill_switch (is_halt msg.state) e.risk }

-- The levels that hold a quantity.
unfoldable pub snapshot_levels : List (Price × ℕ) → List SnapshotLevel
snapshot_levels [] = []
snapshot_levels ((p, n) ∷ lv) = elim (Qty.new n) [
  | ok q ↦ record { price = p; qty = q } ∷ snapshot_levels lv
  | err _ ↦ snapshot_levels lv
]

module _ {L G C : Type 0} ⦃pl : PriceLevel L⦄ ⦃gen : IdGenerator G⦄ ⦃clk : Clock C⦄ where
  unfoldable pub handle_snapshot_request : SnapshotRequest → RecvTs → Engine L G C → Engine L G C
  handle_snapshot_request msg recv_ts e =
      emit
        (λ seq emit_ts. snapshot_response (record {
          engine_seq = seq;
          request_id = msg.request_id;
          recv_ts = recv_ts;
          emit_ts = emit_ts;
          bids = snapshot_levels (bid_levels e.book);
          asks = snapshot_levels (ask_levels e.book);
        }))
        e
