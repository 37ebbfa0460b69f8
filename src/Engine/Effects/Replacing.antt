-- ===== src/Engine/Effects/Replacing.antt =====
-- `handle_cancel_replace` of crates/engine/src/engine.rs, as an effect.
use hft_clob_core.Prelude.{
  ◌≤◌, ◌≡◌, refl, Bool, true, false, Option, none, some, is_some, Result, ok, err, if◌then◌else◌,
}
use hft_clob_core.Domain.Qty.{Qty}
use hft_clob_core.Domain.RejectReason.{RejectReason}
use hft_clob_core.Domain.CancelReason
use hft_clob_core.Matching.Types.{BookError, MatchResult, ReplaceOutcome, IdGenerator}
use hft_clob_core.Matching.Level.{PriceLevel, IsPriceLevel}
use hft_clob_core.Matching.Consistency.Cancelling.{cancel-IsBook}
use hft_clob_core.Matching.Modify.{replace}
use hft_clob_core.Matching.Modify.Replacing.{replace-IsBook}
use hft_clob_core.Matching.Modify.Issuing.{replace-ids}
use hft_clob_core.Risk.{notional_of}
use hft_clob_core.Risk.Limits.{on_order_resting-IsWithinCaps, on_order_removed-IsWithinCaps}
use hft_clob_core.Wire.Inbound.{CancelReplace}
use hft_clob_core.Wire.Outbound.{RecvTs}
use hft_clob_core.Engine.{
  Engine, Clock, OrderRegistryEntry, session_of, with_session, clear_buffers,
}
use hft_clob_core.Engine.Ids.{IsSequential}
use hft_clob_core.Engine.Changes.{
  is_foreign, is_post_only_rejected, refund_entry, reject_replace, register_rest, dispose_replaced,
  dispose_match, commit_replace, after_replace, replace_own, handle_cancel_replace,
}
use hft_clob_core.Engine.Effects.{
  silent, IsEffect-refl, IsEffect-trans, book-IsEffect, risk-IsEffect, with_session-IsEffect,
  clear_buffers-IsEffect,
}
use hft_clob_core.Engine.Effects.Filling.{
  Plainly, emit_rejected-IsEffect, emit_cancelled-IsEffect, emit_replaced-IsEffect,
  emit_match-IsEffect,
}
use hft_clob_core.Engine.Effects.Commands.{guarded-either}

module _ {L G C : Type 0} ⦃pl : PriceLevel L⦄ ⦃law : IsPriceLevel pl⦄ ⦃gen : IdGenerator G⦄
    ⦃clk : Clock C⦄ (seq : IsSequential gen)
    (listed : (l : L) → is_some (pl.snapshot_orders l) ≡ true) where
  module _ (msg : CancelReplace) (t : RecvTs) where
    rejected : (r : RejectReason) (e : Engine L G C) → Plainly seq e (reject_replace msg t r e)
    rejected r e = emit_rejected-IsEffect seq msg.order_id msg.account_id r t e

    register_rest-IsEffect :
        (old : Option OrderRegistryEntry) (q : Qty) (r : Result RejectReason (Unit {0}))
        → (e : Engine L G C) → Plainly seq e (register_rest msg t old q r e)
    unfolding register_rest
    register_rest-IsEffect old q (err r) e =
        IsEffect-trans seq (book-IsEffect seq e _ (cancel-IsBook msg.order_id e.book))
          (rejected r _)
    register_rest-IsEffect old q (ok u) e = silent seq e _ refl refl (λ w. refl) (λ v. v) (λ v. v)

    dispose_replaced-IsEffect :
        (old : Option OrderRegistryEntry) (stp : Bool) (rest : Option Qty) (e : Engine L G C)
        → Plainly seq e (dispose_replaced msg t old stp rest e)
    unfolding dispose_replaced
    dispose_replaced-IsEffect old true rest e =
        emit_cancelled-IsEffect seq msg.order_id msg.account_id CancelReason.self_trade_prevented t
          e
    dispose_replaced-IsEffect old false none e = IsEffect-refl seq e
    dispose_replaced-IsEffect old false (some q) e =
        IsEffect-trans seq
          (risk-IsEffect seq e _
            (on_order_resting-IsWithinCaps msg.account_id (notional_of msg.new_price q) e.risk))
          (register_rest-IsEffect old q _ _)

    pub dispose_match-IsEffect :
        (old : Option OrderRegistryEntry) (r : Option MatchResult) (e : Engine L G C)
        → Plainly seq e (dispose_match msg t old r e)
    unfolding dispose_match
    dispose_match-IsEffect old none e = dispose_replaced-IsEffect old false (some msg.new_qty) e
    dispose_match-IsEffect old (some r) e =
        dispose_replaced-IsEffect old r.taker_stp_cancelled r.taker_remaining e

    refund_entry-IsEffect :
        (old : Option OrderRegistryEntry) (e : Engine L G C) → Plainly seq e (refund_entry old e)
    refund_entry-IsEffect none e = IsEffect-refl seq e
    refund_entry-IsEffect (some x) e =
        risk-IsEffect seq e _ (on_order_removed-IsWithinCaps x.account_id x.notional e.risk)

    commit_replace-IsEffect :
        (old : Option OrderRegistryEntry) (r : Option MatchResult) (e : Engine L G C)
        → Plainly seq e (commit_replace msg t old r e)
    unfolding commit_replace
    commit_replace-IsEffect old r e = IsEffect-trans seq (refund_entry-IsEffect old e) (
        IsEffect-trans seq
          (silent seq (refund_entry old e) _ refl refl (λ w. refl) (λ v. v) (λ v. v))
          (IsEffect-trans seq
            (emit_replaced-IsEffect seq msg.order_id msg.account_id msg.new_qty t _)
            (IsEffect-trans seq
              (emit_match-IsEffect seq msg.order_id msg.account_id msg.new_qty t _)
              (dispose_match-IsEffect old r _))))

    pub after_replace-IsEffect :
        (old : Option OrderRegistryEntry) (r : Result BookError ReplaceOutcome) (e : Engine L G C)
        → Plainly seq e (after_replace msg t old r e)
    unfolding after_replace
    after_replace-IsEffect old (err u) e = rejected RejectReason.unknown_order_id e
    after_replace-IsEffect old (ok r) e =
        elim (is_post_only_rejected r.match_result)
          as (λ b. Plainly seq e (
            if b
            then reject_replace msg t RejectReason.post_only_would_cross e
            else commit_replace msg t old r.match_result e)) [
              | true ↦ rejected RejectReason.post_only_would_cross e
              | false ↦ commit_replace-IsEffect old r.match_result e
            ]

    replace_own-IsEffect :
        (e : Engine L G C) → 1 ≤ msg.new_qty → Plainly seq e (replace_own msg t e)
    unfolding replace_own session_of clear_buffers
    replace_own-IsEffect e lots =
        let cleared = clear_buffers e in
        let s = session_of cleared in
        let r = replace msg.order_id msg.new_price msg.new_qty s in
        elim (is_foreign (e.registry msg.order_id) msg.account_id)
          as (λ b. Plainly seq e (
            if b
            then reject_replace msg t RejectReason.unknown_order_id e
            else after_replace msg t (e.registry msg.order_id) r.1 (with_session r.0 cleared))) [
              | true ↦ rejected RejectReason.unknown_order_id e
              | false ↦ IsEffect-trans seq (clear_buffers-IsEffect seq e) (
                  IsEffect-trans seq
                    (with_session-IsEffect seq cleared r.0
                      (replace-ids seq.upcoming seq.independent msg.order_id msg.new_price
                        msg.new_qty s)
                      (λ v. replace-IsBook msg.order_id msg.new_price msg.new_qty s v listed lots))
                    (after_replace-IsEffect (e.registry msg.order_id) r.1 _))
            ]

    -- A replace by a quantity of at least one lot.
    pub handle_cancel_replace-IsEffect :
        (e : Engine L G C) → 1 ≤ msg.new_qty → Plainly seq e (handle_cancel_replace msg t e)
    unfolding handle_cancel_replace
    handle_cancel_replace-IsEffect e lots =
        guarded-either (Plainly seq e) _ _ (replace_own msg t) e (λ r. rejected r e)
          (replace_own-IsEffect e lots)
