-- ===== src/Engine/Answers/Replying.antt =====
-- The handlers of crates/engine/src/engine.rs answer for every order they are given.
use hft_clob_core.Prelude.{
  ℕ, ◌+◌, ◌-◌, ◌≤◌, ◌≡◌, refl, ◌∙◌, Bool, true, false, List, [], ◌∷◌, ◌++◌, append_assoc, Option,
  none, some, get_or, is_some, length, Result, ok, err, if◌then◌else◌, arith,
}
use hft_clob_core.Domain.OrderId.{OrderId}
use hft_clob_core.Domain.AccountId.{AccountId}
use hft_clob_core.Domain.Qty.{Qty}
use hft_clob_core.Domain.Price.{Price}
use hft_clob_core.Domain.Tif.{Tif, gtc, ioc, post_only}
use hft_clob_core.Domain.RejectReason.{RejectReason}
use hft_clob_core.Domain.CancelReason
use hft_clob_core.Matching.Types.{BookError, Fill, MatchResult, IdGenerator}
use hft_clob_core.Matching.Level.{PriceLevel, IsPriceLevel}
use hft_clob_core.Matching.Consistency.{IsBook}
use hft_clob_core.Matching.Walk.{match_aggressive}
use hft_clob_core.Matching.Walk.Guarantees.{filled, match_aggressive-conserves}
use hft_clob_core.Wire.Inbound.{NewOrder}
use hft_clob_core.Wire.Outbound.{RecvTs, Outbound}
use hft_clob_core.Engine.{Engine, Clock, emit, session_of, with_session, clear_buffers}
use hft_clob_core.Engine.Ids.{IsSequential}
use hft_clob_core.Engine.Reports.{emit_exec_report_fill, emit_trade_print_for_fill}
use hft_clob_core.Engine.Fills.{
  report_fill, set_last_trade, settle_maker, emit_fills, emit_fills_for_taker, emit_stp_cancels,
}
use hft_clob_core.Engine.Entry.{
  aggressive_order, finish_resting, rest_counted, rest_taker, route_rest, dispose_taker,
  after_match, match_new_order, handle_new_order, reject_new,
}
use hft_clob_core.Engine.Effects.{IsEffect}
use hft_clob_core.Engine.Effects.Filling.{
  set_last_trade-IsEffect, settle_maker-IsEffect, emit_fills-IsEffect, emit_stp-IsEffect,
  emit_match-IsEffect,
}
use hft_clob_core.Engine.Effects.Commands.{guarded-either}
use hft_clob_core.Engine.Answers.{
  Sends, IsAnswered, unsent, IsAnswered-before, IsAnswered-after, rejected_answers,
  accepted_answers, cancelled_answers,
}

module _ {L G C : Type 0} ⦃pl : PriceLevel L⦄ ⦃law : IsPriceLevel pl⦄ ⦃gen : IdGenerator G⦄
    ⦃clk : Clock C⦄ (seq : IsSequential gen) where
  pub effect-Sends :
      {W : Type 0} {A : Outbound → Type 0} {e e' : Engine L G C}
      → IsEffect seq W A e e'
      → Sends e e'
  effect-Sends h = record { messages = h.messages; sent = h.sent }

some_filled : (fs : List Fill) → 1 ≤ filled fs → 1 ≤ length fs
some_filled [] h = absurd (omega arith)
some_filled (f ∷ fs) h = omega arith

lots_filled :
    (rest : Option Qty) {n q : ℕ} → rest ≡ none → n + get_or rest 0 ≡ 0 + q → 1 ≤ q → 1 ≤ n
lots_filled rest h e lots = ground (arith, e)

module _ {L G C : Type 0} ⦃gen : IdGenerator G⦄ ⦃clk : Clock C⦄ where
  report_fill_answers :
      (i : OrderId) (a : AccountId) (f : Fill) (n : ℕ) (t : RecvTs) (e : Engine L G C)
      → IsAnswered i e (report_fill i a f n t e)
  unfolding report_fill emit_exec_report_fill emit_trade_print_for_fill emit
  report_fill_answers i a f n t e = record {
    messages = _;
    sent = append_assoc (e.sink ++ _) _ _ ∙ append_assoc e.sink _ _;
    answers = ground arith;
  }

module _ {L G C : Type 0} ⦃pl : PriceLevel L⦄ ⦃law : IsPriceLevel pl⦄ ⦃gen : IdGenerator G⦄
    ⦃clk : Clock C⦄ (seq : IsSequential gen) where
  -- A taker that has a fill is told of it.
  emit_fills_answers :
      (i : OrderId) (a : AccountId) (t : RecvTs) (fs : List Fill) (n : ℕ) (e : Engine L G C)
      → 1 ≤ length fs
      → IsAnswered i e (emit_fills i a t fs n e)
  unfolding emit_fills
  emit_fills_answers i a t [] n e h = absurd (omega arith)
  emit_fills_answers i a t (f ∷ fs) n e h =
      let reported = report_fill i a f (n - f.qty) t e in
      let priced = set_last_trade f.price reported in
      IsAnswered-before i
        (IsAnswered-before i
          (IsAnswered-before i (report_fill_answers i a f (n - f.qty) t e)
            (effect-Sends seq (set_last_trade-IsEffect seq f.price reported)))
          (effect-Sends seq (settle_maker-IsEffect seq f priced)))
        (effect-Sends seq (emit_fills-IsEffect seq i a t fs (n - f.qty) (settle_maker f priced)))

  fills_answer :
      (i : OrderId) (a : AccountId) (q : Qty) (t : RecvTs) (e : Engine L G C)
      → 1 ≤ length e.fills_buf
      → IsAnswered i e (emit_stp_cancels t (emit_fills_for_taker i a q t e))
  unfolding emit_stp_cancels emit_fills_for_taker
  fills_answer i a q t e h =
      IsAnswered-before i (emit_fills_answers i a t e.fills_buf q e h)
        (effect-Sends seq (emit_stp-IsEffect seq t _ _))

  module _ (msg : NewOrder) (t : RecvTs) where
    abbrev Replies : Engine L G C → Engine L G C → Type 0
    Replies e e' = IsAnswered msg.order_id e e'

    finish_resting_answers :
        (p : Price) (q : Qty) (r : Result BookError (Unit {0})) (e : Engine L G C)
        → Replies e (finish_resting msg t p q r e)
    unfolding finish_resting
    finish_resting_answers p q (ok u) e =
        IsAnswered-after msg.order_id (unsent e _ refl)
          (accepted_answers msg.order_id msg.account_id q t _)
    finish_resting_answers p q (err u) e =
        IsAnswered-after msg.order_id (unsent e _ refl)
          (rejected_answers msg.order_id msg.account_id RejectReason.duplicate_order_id t _)

    rest_counted_answers :
        (p : Price) (q : Qty) (r : Result RejectReason (Unit {0})) (e : Engine L G C)
        → Replies e (rest_counted msg t p q r e)
    unfolding rest_counted
    rest_counted_answers p q (err r) e = rejected_answers msg.order_id msg.account_id r t e
    rest_counted_answers p q (ok u) e =
        IsAnswered-after msg.order_id (unsent e _ refl) (finish_resting_answers p q _ _)

    rest_taker_answers :
        (p : Price) (q : Qty) (e : Engine L G C) → Replies e (rest_taker msg t p q e)
    unfolding rest_taker
    rest_taker_answers p q e =
        IsAnswered-after msg.order_id (unsent e _ refl) (rest_counted_answers p q _ _)

    route_rest_answers :
        (tif : Tif) (p : Option Price) (q : Qty) (e : Engine L G C)
        → Replies e (route_rest msg t tif p q e)
    unfolding route_rest
    route_rest_answers ioc p q e =
        cancelled_answers msg.order_id msg.account_id CancelReason.ioc_remaining t e
    route_rest_answers gtc (some p) q e = rest_taker_answers p q e
    route_rest_answers gtc none q e =
        cancelled_answers msg.order_id msg.account_id CancelReason.ioc_remaining t e
    route_rest_answers post_only (some p) q e = rest_taker_answers p q e
    route_rest_answers post_only none q e =
        cancelled_answers msg.order_id msg.account_id CancelReason.ioc_remaining t e

    -- `reported` is the engine after the reports of the match.
    dispose_taker_answers :
        (stp : Bool) (rest : Option Qty) (e reported : Engine L G C)
        → Sends e reported
        → (rest ≡ none → Replies e reported)
        → Replies e (dispose_taker msg t stp rest reported)
    unfolding dispose_taker
    dispose_taker_answers true rest e reported s filled =
        IsAnswered-after msg.order_id s (
          cancelled_answers msg.order_id msg.account_id CancelReason.self_trade_prevented t
            reported)
    dispose_taker_answers false none e reported s filled = filled refl
    dispose_taker_answers false (some q) e reported s filled =
        IsAnswered-after msg.order_id s (route_rest_answers msg.tif msg.price q reported)

    after_match_answers :
        (r : MatchResult) (e : Engine L G C)
        → (r.taker_remaining ≡ none → 1 ≤ length e.fills_buf)
        → Replies e (after_match msg t r e)
    unfolding after_match
    after_match_answers r e traded =
        let reported =
          emit_stp_cancels t (emit_fills_for_taker msg.order_id msg.account_id msg.qty t e) in
        elim r.taker_post_only_rejected
          as (λ b. Replies e (
            if b
            then reject_new msg t RejectReason.post_only_would_cross e
            else dispose_taker msg t r.taker_stp_cancelled r.taker_remaining reported)) [
              | true ↦
                  rejected_answers msg.order_id msg.account_id RejectReason.post_only_would_cross t
                    e
              | false ↦
                  dispose_taker_answers r.taker_stp_cancelled r.taker_remaining e reported
                    (effect-Sends seq
                      (emit_match-IsEffect seq msg.order_id msg.account_id msg.qty t e))
                    (λ h. fills_answer msg.order_id msg.account_id msg.qty t e (traded h))
            ]

    match_new_order_answers :
        (e : Engine L G C)
        → ((l : L) → is_some (pl.snapshot_orders l) ≡ true)
        → IsBook e.book
        → 1 ≤ msg.qty
        → Replies e (match_new_order msg t e)
    unfolding match_new_order with_session session_of clear_buffers aggressive_order
    match_new_order_answers e listed v lots =
        let cleared = clear_buffers e in
        let s = session_of cleared in
        let taker = aggressive_order msg in
        let walk = match_aggressive taker s in
        let conserved = match_aggressive-conserves taker s v listed in
        IsAnswered-after msg.order_id (unsent e _ refl) (
          after_match_answers walk.1 (with_session walk.0 cleared)
            λ h. some_filled walk.0.out_fills (lots_filled walk.1.taker_remaining h conserved lots))

    pub handle_new_order_answers :
        (e : Engine L G C)
        → ((l : L) → is_some (pl.snapshot_orders l) ≡ true)
        → IsBook e.book
        → 1 ≤ msg.qty
        → Replies e (handle_new_order msg t e)
    unfolding handle_new_order
    handle_new_order_answers e listed v lots =
        guarded-either (Replies e) _ _ (match_new_order msg t) e
          (λ r. rejected_answers msg.order_id msg.account_id r t e)
          (match_new_order_answers e listed v lots)
