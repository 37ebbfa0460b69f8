-- ===== src/Engine/Answers/Stepping.antt =====
-- `Engine::step` of crates/engine/src/engine.rs answers every command about an order.
use hft_clob_core.Prelude.{
  ◌≡◌, refl, subst, true, false, List, ◌++◌, Option, none, some, is_some, Result, ok, err,
  if◌then◌else◌, arith,
}
use hft_clob_core.Domain.Side.{Side}
use hft_clob_core.Domain.OrderId.{OrderId}
use hft_clob_core.Domain.RejectReason.{RejectReason}
use hft_clob_core.Domain.CancelReason
use hft_clob_core.Matching.Types.{BookError, MatchResult, ReplaceOutcome, IdGenerator}
use hft_clob_core.Matching.Level.{PriceLevel, IsPriceLevel}
use hft_clob_core.Matching.Consistency.{IsBook}
use hft_clob_core.Matching.Resting.{cancel}
use hft_clob_core.Matching.Modify.{replace}
use hft_clob_core.Wire.Inbound.{
  CancelOrder, CancelReplace, Inbound, new_order, cancel_order, cancel_replace, kill_switch_set,
  snapshot_request,
}
use hft_clob_core.Wire.Outbound.{RecvTs, Outbound}
use hft_clob_core.Engine.{
  Engine, Clock, OrderRegistryEntry, session_of, with_session, clear_buffers,
}
use hft_clob_core.Engine.Ids.{IsSequential}
use hft_clob_core.Engine.Changes.{
  is_foreign, is_post_only_rejected, refund_entry, reject_cancel, after_cancel, cancel_own,
  handle_cancel_order, reject_replace, commit_replace, after_replace, replace_own,
  handle_cancel_replace,
}
use hft_clob_core.Engine.Deltas.{capture_pre_step_levels}
use hft_clob_core.Engine.Step.{with_book_changes, dispatch, step}
use hft_clob_core.Engine.Effects.{IsPlain, drop_entry-IsEffect}
use hft_clob_core.Engine.Effects.Filling.{emit_match-IsEffect}
use hft_clob_core.Engine.Effects.Commands.{guarded-either}
use hft_clob_core.Engine.Effects.Replacing.{dispose_match-IsEffect}
use hft_clob_core.Engine.Effects.Steps.{HasLots, tail-IsEffect}
use hft_clob_core.Engine.Answers.{
  Sends, IsAnswered, has_report, unsent, IsAnswered-before, IsAnswered-after, rejected_answers,
  cancelled_answers, replaced_answers,
}
use hft_clob_core.Engine.Answers.Replying.{effect-Sends, handle_new_order_answers}

-- The order that a command names.
abbrev pub named_order : Inbound → Option OrderId
named_order (new_order msg) = some msg.order_id
named_order (cancel_order msg) = some msg.order_id
named_order (cancel_replace msg) = some msg.order_id
named_order (Inbound.mass_cancel msg) = none
named_order (kill_switch_set msg) = none
named_order (snapshot_request msg) = none

module _ {L G C : Type 0} where
  refund-Sends : (old : Option OrderRegistryEntry) (e : Engine L G C) → Sends e (refund_entry old e)
  refund-Sends none e = unsent e _ refl
  refund-Sends (some x) e = unsent e _ refl

module _ {L G C : Type 0} ⦃pl : PriceLevel L⦄ ⦃law : IsPriceLevel pl⦄ ⦃gen : IdGenerator G⦄
    ⦃clk : Clock C⦄ (seq : IsSequential gen)
    (listed : (l : L) → is_some (pl.snapshot_orders l) ≡ true) where
  module _ (msg : CancelOrder) (t : RecvTs) where
    after_cancel_answers :
        (r : Result BookError (Side × _)) (e : Engine L G C)
        → IsAnswered msg.order_id e (after_cancel msg t r e)
    unfolding after_cancel
    after_cancel_answers (ok u) e =
        IsAnswered-after msg.order_id
          (effect-Sends seq
            (drop_entry-IsEffect seq {Within = Unit {0}} {Allowed = IsPlain} msg.order_id e))
          (cancelled_answers msg.order_id msg.account_id CancelReason.user_requested t _)
    after_cancel_answers (err u) e =
        rejected_answers msg.order_id msg.account_id RejectReason.unknown_order_id t e

    handle_cancel_order_answers :
        (e : Engine L G C) → IsAnswered msg.order_id e (handle_cancel_order msg t e)
    unfolding handle_cancel_order cancel_own
    handle_cancel_order_answers e =
        guarded-either (IsAnswered msg.order_id e) _ _ (cancel_own msg t) e
          (λ r. rejected_answers msg.order_id msg.account_id r t e)
          (elim (is_foreign (e.registry msg.order_id) msg.account_id)
            as (λ b. IsAnswered msg.order_id e (
              if b
              then reject_cancel msg t RejectReason.unknown_order_id e
              else after_cancel msg t (cancel msg.order_id e.book).1
                  (record e { book = (cancel msg.order_id e.book).0 }))) [
                    | true ↦
                        rejected_answers msg.order_id msg.account_id RejectReason.unknown_order_id t
                          e
                    | false ↦
                        IsAnswered-after msg.order_id (unsent e _ refl) (after_cancel_answers _ _)
                  ])

  module _ (msg : CancelReplace) (t : RecvTs) where
    commit_replace_answers :
        (old : Option OrderRegistryEntry) (r : Option MatchResult) (e : Engine L G C)
        → IsAnswered msg.order_id e (commit_replace msg t old r e)
    unfolding commit_replace
    commit_replace_answers old r e = IsAnswered-after msg.order_id (refund-Sends old e) (
        IsAnswered-after msg.order_id (unsent (refund_entry old e) _ refl) (
          IsAnswered-before msg.order_id
            (IsAnswered-before msg.order_id
              (replaced_answers msg.order_id msg.account_id msg.new_qty t _)
              (effect-Sends seq
                (emit_match-IsEffect seq msg.order_id msg.account_id msg.new_qty t _)))
            (effect-Sends seq (dispose_match-IsEffect seq listed msg t old r _))))

    after_replace_answers :
        (old : Option OrderRegistryEntry) (r : Result BookError ReplaceOutcome) (e : Engine L G C)
        → IsAnswered msg.order_id e (after_replace msg t old r e)
    unfolding after_replace
    after_replace_answers old (err u) e =
        rejected_answers msg.order_id msg.account_id RejectReason.unknown_order_id t e
    after_replace_answers old (ok r) e =
        elim (is_post_only_rejected r.match_result)
          as (λ b. IsAnswered msg.order_id e (
            if b
            then reject_replace msg t RejectReason.post_only_would_cross e
            else commit_replace msg t old r.match_result e)) [
              | true ↦
                  rejected_answers msg.order_id msg.account_id RejectReason.post_only_would_cross t
                    e
              | false ↦ commit_replace_answers old r.match_result e
            ]

    handle_cancel_replace_answers :
        (e : Engine L G C) → IsAnswered msg.order_id e (handle_cancel_replace msg t e)
    unfolding handle_cancel_replace replace_own clear_buffers with_session
    handle_cancel_replace_answers e =
        let cleared = clear_buffers e in
        let r = replace msg.order_id msg.new_price msg.new_qty (session_of cleared) in
        guarded-either (IsAnswered msg.order_id e) _ _ (replace_own msg t) e
          (λ r. rejected_answers msg.order_id msg.account_id r t e)
          (elim (is_foreign (e.registry msg.order_id) msg.account_id)
            as (λ b. IsAnswered msg.order_id e (
              if b
              then reject_replace msg t RejectReason.unknown_order_id e
              else after_replace msg t (e.registry msg.order_id) r.1 (with_session r.0 cleared))) [
                | true ↦
                    rejected_answers msg.order_id msg.account_id RejectReason.unknown_order_id t e
                | false ↦
                    IsAnswered-after msg.order_id (unsent e _ refl) (after_replace_answers _ r.1 _)
              ])

  -- What a handler sends stands among what the step sends.
  stepped :
      (i : OrderId) (handle : Engine L G C → Engine L G C) (e : Engine L G C)
      → IsAnswered i (capture_pre_step_levels e) (handle (capture_pre_step_levels e))
      → IsAnswered i e (with_book_changes handle e)
  unfolding capture_pre_step_levels
  stepped i handle e h =
      IsAnswered-after i (unsent e (capture_pre_step_levels e) refl)
        (IsAnswered-before i h (effect-Sends seq (tail-IsEffect seq handle e)))

  dispatch_answers :
      (inbound : Inbound) (t : RecvTs) (i : OrderId) (e : Engine L G C)
      → named_order inbound ≡ some i
      → HasLots inbound
      → IsBook e.book
      → IsAnswered i e (dispatch inbound t e)
  unfolding dispatch capture_pre_step_levels
  dispatch_answers (new_order msg) t i e h lots v =
      let same : msg.order_id ≡ i = ground arith in
      subst (λ i. IsAnswered i e (dispatch (new_order msg) t e)) same
        (stepped msg.order_id _ e (handle_new_order_answers seq msg t _ listed v lots))
  dispatch_answers (cancel_order msg) t i e h lots v =
      let same : msg.order_id ≡ i = ground arith in
      subst (λ i. IsAnswered i e (dispatch (cancel_order msg) t e)) same
        (stepped msg.order_id _ e (handle_cancel_order_answers msg t _))
  dispatch_answers (cancel_replace msg) t i e h lots v =
      let same : msg.order_id ≡ i = ground arith in
      subst (λ i. IsAnswered i e (dispatch (cancel_replace msg) t e)) same
        (stepped msg.order_id _ e (handle_cancel_replace_answers msg t _))
  dispatch_answers (Inbound.mass_cancel msg) t i e h lots v = absurd (ground arith)
  dispatch_answers (kill_switch_set msg) t i e h lots v = absurd (ground arith)
  dispatch_answers (snapshot_request msg) t i e h lots v = absurd (ground arith)

  -- Every new order, cancel and replace is answered, at a well-formed book: among the messages that
  -- the step appends to the sink is an execution report for the order that the command names. New
  -- orders and replaces have at least one lot, and the listing of a level must not fail.
  pub step_answers :
      (inbound : Inbound) (i : OrderId) (e : Engine L G C)
      → named_order inbound ≡ some i
      → HasLots inbound
      → IsBook e.book
      → (new : List Outbound) × ((step inbound e).sink ≡ e.sink ++ new) × (has_report i new ≡ true)
  unfolding step
  step_answers inbound i e h lots v =
      let e1 : Engine L G C = record e { clock = (clk.now e.clock).1 } in
      let x =
        IsAnswered-after i (unsent e e1 refl)
          (dispatch_answers inbound (clk.now e.clock).0 i e1 h lots v) in
      (x.messages, x.sent, x.answers)
