-- ===== src/Engine/Effects/Commands.antt =====
-- The handlers of crates/engine/src/engine.rs, as effects.
use hft_clob_core.Prelude.{
  ◌≤◌, ◌≡◌, refl, inl, inr, Bool, true, false, List, [], ◌∷◌, Option, none, some, Bool-cases,
  is_some, Result, ok, err, if◌then◌else◌,
}
use hft_clob_core.Domain.Side.{Side}
use hft_clob_core.Domain.Qty.{Qty}
use hft_clob_core.Domain.Price.{Price}
use hft_clob_core.Domain.Tif.{Tif, gtc, ioc, post_only}
use hft_clob_core.Domain.RejectReason.{RejectReason}
use hft_clob_core.Domain.CancelReason
use hft_clob_core.Matching.Types.{BookError, MassCancellation, MatchResult, IdGenerator}
use hft_clob_core.Matching.Level.{PriceLevel, IsPriceLevel}
use hft_clob_core.Matching.Resting.{cancel}
use hft_clob_core.Matching.Consistency.Adding.{add_resting-IsBook}
use hft_clob_core.Matching.Consistency.Cancelling.{cancel-IsBook}
use hft_clob_core.Matching.Consistency.MassCancelling.{mass_cancel_lem}
use hft_clob_core.Matching.Walk.{match_aggressive}
use hft_clob_core.Matching.Walk.Guarantees.{match_aggressive-IsBook}
use hft_clob_core.Matching.Walk.Tracking.{match_aggressive-Tracks, match_aggressive-remaining}
use hft_clob_core.Risk.{notional_of}
use hft_clob_core.Risk.Limits.{on_order_resting-IsWithinCaps, on_order_removed-IsWithinCaps}
use hft_clob_core.Wire.Inbound.{NewOrder, CancelOrder, MassCancel}
use hft_clob_core.Wire.Outbound.{RecvTs}
use hft_clob_core.Engine.{Engine, Clock, session_of, clear_buffers}
use hft_clob_core.Engine.Ids.{IsSequential}
use hft_clob_core.Engine.Reports.{emit_rejected_mass}
use hft_clob_core.Engine.Entry.{
  guarded, resting_order, aggressive_order, finish_resting, rest_counted, rest_taker, route_rest,
  dispose_taker, after_match, match_new_order, handle_new_order,
}
use hft_clob_core.Engine.Changes.{
  is_foreign, reject_cancel, after_cancel, cancel_own, handle_cancel_order, report_mass,
  cancel_account, handle_mass_cancel,
}
use hft_clob_core.Engine.Effects.{
  silent, IsEffect-refl, IsEffect-trans, drop_entry-IsEffect, book-IsEffect, risk-IsEffect,
  with_session-IsEffect, clear_buffers-IsEffect,
}
use hft_clob_core.Engine.Effects.Filling.{
  Plainly, emit_rejected-IsEffect, emit_accepted-IsEffect, emit_cancelled-IsEffect,
  emit_match-IsEffect,
}

module _ {L G C : Type 0} where
  -- What holds of every rejection and of the handler's work holds of the guarded handler.
  pub guarded-either :
      (P : Engine L G C → Type 0) (check : Result RejectReason (Unit {0}))
      → (reject : RejectReason → Engine L G C → Engine L G C)
      → (proceed : Engine L G C → Engine L G C) (e : Engine L G C)
      → ((r : RejectReason) → P (reject r e))
      → P (proceed e)
      → P (guarded check reject proceed e)
  unfolding guarded
  guarded-either P (err r) reject proceed e h k = h r
  guarded-either P (ok u) reject proceed e h k =
      elim e.risk.kill_switch
        as (λ b. P (if b then reject RejectReason.kill_switched e else proceed e)) [
          | true ↦ h RejectReason.kill_switched
          | false ↦ k
        ]

module _ {L G C : Type 0} ⦃pl : PriceLevel L⦄ ⦃law : IsPriceLevel pl⦄ ⦃gen : IdGenerator G⦄
    ⦃clk : Clock C⦄ (seq : IsSequential gen)
    (listed : (l : L) → is_some (pl.snapshot_orders l) ≡ true) where
  module _ (msg : NewOrder) (t : RecvTs) where
    finish_resting-IsEffect :
        (p : Price) (q : Qty) (r : Result BookError (Unit {0})) (e : Engine L G C)
        → Plainly seq e (finish_resting msg t p q r e)
    unfolding finish_resting
    finish_resting-IsEffect p q (ok u) e =
        IsEffect-trans seq (silent seq e _ refl refl (λ w. refl) (λ v. v) (λ v. v))
          (emit_accepted-IsEffect seq msg.order_id msg.account_id q t _)
    finish_resting-IsEffect p q (err x) e =
        IsEffect-trans seq
          (risk-IsEffect seq e _
            (on_order_removed-IsWithinCaps msg.account_id (notional_of p q) e.risk))
          (emit_rejected-IsEffect seq msg.order_id msg.account_id RejectReason.duplicate_order_id t
            _)

    rest_counted-IsEffect :
        (p : Price) (q : Qty) (r : Result RejectReason (Unit {0})) (e : Engine L G C)
        → 1 ≤ q
        → Plainly seq e (rest_counted msg t p q r e)
    unfolding rest_counted resting_order
    rest_counted-IsEffect p q (err r) e lots =
        emit_rejected-IsEffect seq msg.order_id msg.account_id r t e
    rest_counted-IsEffect p q (ok u) e lots =
        IsEffect-trans seq
          (book-IsEffect seq e _ (add_resting-IsBook (resting_order msg p q) e.book lots))
          (finish_resting-IsEffect p q _ _)

    rest_taker-IsEffect :
        (p : Price) (q : Qty) (e : Engine L G C) → 1 ≤ q → Plainly seq e (rest_taker msg t p q e)
    unfolding rest_taker
    rest_taker-IsEffect p q e lots =
        IsEffect-trans seq
          (risk-IsEffect seq e _
            (on_order_resting-IsWithinCaps msg.account_id (notional_of p q) e.risk))
          (rest_counted-IsEffect p q _ _ lots)

    route_rest-IsEffect :
        (tif : Tif) (p : Option Price) (q : Qty) (e : Engine L G C)
        → 1 ≤ q
        → Plainly seq e (route_rest msg t tif p q e)
    unfolding route_rest
    route_rest-IsEffect ioc p q e lots =
        emit_cancelled-IsEffect seq msg.order_id msg.account_id CancelReason.ioc_remaining t e
    route_rest-IsEffect gtc (some p) q e lots = rest_taker-IsEffect p q e lots
    route_rest-IsEffect gtc none q e lots =
        emit_cancelled-IsEffect seq msg.order_id msg.account_id CancelReason.ioc_remaining t e
    route_rest-IsEffect post_only (some p) q e lots = rest_taker-IsEffect p q e lots
    route_rest-IsEffect post_only none q e lots =
        emit_cancelled-IsEffect seq msg.order_id msg.account_id CancelReason.ioc_remaining t e

    dispose_taker-IsEffect :
        (stp : Bool) (rest : Option Qty) (e : Engine L G C)
        → ((q : Qty) → rest ≡ some q → 1 ≤ q)
        → Plainly seq e (dispose_taker msg t stp rest e)
    unfolding dispose_taker
    dispose_taker-IsEffect true rest e lots =
        emit_cancelled-IsEffect seq msg.order_id msg.account_id CancelReason.self_trade_prevented t
          e
    dispose_taker-IsEffect false none e lots = IsEffect-refl seq e
    dispose_taker-IsEffect false (some q) e lots =
        route_rest-IsEffect msg.tif msg.price q e (lots q refl)

    after_match-IsEffect :
        (r : MatchResult) (e : Engine L G C)
        → ((q : Qty) → r.taker_remaining ≡ some q → 1 ≤ q)
        → Plainly seq e (after_match msg t r e)
    unfolding after_match
    after_match-IsEffect r e lots = elim (Bool-cases r.taker_post_only_rejected) [
      | inl h ↦
          rw (h, after_match)
            (emit_rejected-IsEffect seq msg.order_id msg.account_id
              RejectReason.post_only_would_cross t e)
      | inr h ↦
          rw (h, after_match)
            (IsEffect-trans seq (emit_match-IsEffect seq msg.order_id msg.account_id msg.qty t e)
              (dispose_taker-IsEffect r.taker_stp_cancelled r.taker_remaining _ lots))
    ]

    match_new_order-IsEffect :
        (e : Engine L G C) → 1 ≤ msg.qty → Plainly seq e (match_new_order msg t e)
    unfolding match_new_order session_of aggressive_order clear_buffers
    match_new_order-IsEffect e lots =
        let s = session_of (clear_buffers e) in
        let taker = aggressive_order msg in
        IsEffect-trans seq (clear_buffers-IsEffect seq e) (
          IsEffect-trans seq
            (with_session-IsEffect seq (clear_buffers e) (match_aggressive taker s).0
              (match_aggressive-Tracks seq.upcoming seq.independent taker s).ids
              (λ v. match_aggressive-IsBook taker s v listed))
            (after_match-IsEffect (match_aggressive taker s).1 _
              (match_aggressive-remaining taker s lots)))

    -- A new order of at least one lot.
    pub handle_new_order-IsEffect :
        (e : Engine L G C) → 1 ≤ msg.qty → Plainly seq e (handle_new_order msg t e)
    unfolding handle_new_order
    handle_new_order-IsEffect e lots =
        guarded-either (Plainly seq e) _ _ (match_new_order msg t) e
          (λ r. emit_rejected-IsEffect seq msg.order_id msg.account_id r t e)
          (match_new_order-IsEffect e lots)

  module _ (msg : CancelOrder) (t : RecvTs) where
    after_cancel-IsEffect :
        (r : Result BookError (Side × Price)) (e : Engine L G C)
        → Plainly seq e (after_cancel msg t r e)
    unfolding after_cancel
    after_cancel-IsEffect (ok u) e =
        IsEffect-trans seq (drop_entry-IsEffect seq msg.order_id e)
          (emit_cancelled-IsEffect seq msg.order_id msg.account_id CancelReason.user_requested t _)
    after_cancel-IsEffect (err u) e =
        emit_rejected-IsEffect seq msg.order_id msg.account_id RejectReason.unknown_order_id t e

    cancel_own-IsEffect : (e : Engine L G C) → Plainly seq e (cancel_own msg t e)
    unfolding cancel_own
    cancel_own-IsEffect e =
        elim (is_foreign (e.registry msg.order_id) msg.account_id)
          as (λ b. Plainly seq e (
            if b
            then reject_cancel msg t RejectReason.unknown_order_id e
            else after_cancel msg t (cancel msg.order_id e.book).1
                (record e { book = (cancel msg.order_id e.book).0 }))) [
                  | true ↦
                      emit_rejected-IsEffect seq msg.order_id msg.account_id
                        RejectReason.unknown_order_id t e
                  | false ↦
                      IsEffect-trans seq (book-IsEffect seq e _ (cancel-IsBook msg.order_id e.book))
                        (after_cancel-IsEffect _ _)
                ]

    pub handle_cancel_order-IsEffect :
        (e : Engine L G C) → Plainly seq e (handle_cancel_order msg t e)
    unfolding handle_cancel_order
    handle_cancel_order-IsEffect e =
        guarded-either (Plainly seq e) _ _ (cancel_own msg t) e
          (λ r. emit_rejected-IsEffect seq msg.order_id msg.account_id r t e)
          (cancel_own-IsEffect e)

  module _ (msg : MassCancel) (t : RecvTs) where
    report_mass-IsEffect :
        (out : List MassCancellation) (e : Engine L G C) → Plainly seq e (report_mass msg t out e)
    unfolding report_mass
    report_mass-IsEffect [] e = IsEffect-refl seq e
    report_mass-IsEffect (mc ∷ mcs) e = IsEffect-trans seq (drop_entry-IsEffect seq mc.order_id e) (
        IsEffect-trans seq
          (emit_cancelled-IsEffect seq mc.order_id mc.account_id CancelReason.mass_cancel t _)
          (report_mass-IsEffect mcs _))

    cancel_account-IsEffect : (e : Engine L G C) → Plainly seq e (cancel_account msg t e)
    unfolding cancel_account
    cancel_account-IsEffect e =
        IsEffect-trans seq
          (silent seq e _ refl refl (λ w. refl)
            (λ v. (mass_cancel_lem msg.account_id e.book [] v).0) (λ v. v))
          (report_mass-IsEffect _ _)

    pub handle_mass_cancel-IsEffect :
        (e : Engine L G C) → Plainly seq e (handle_mass_cancel msg t e)
    unfolding handle_mass_cancel emit_rejected_mass
    handle_mass_cancel-IsEffect e =
        guarded-either (Plainly seq e) _ _ (cancel_account msg t) e
          (λ r. emit_rejected-IsEffect seq 1 msg.account_id r t e) (cancel_account-IsEffect e)
