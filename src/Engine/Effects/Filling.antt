-- ===== src/Engine/Effects/Filling.antt =====
-- The reports of a match, as effects.
use hft_clob_core.Prelude.{
  ℕ, ◌-◌, refl, inl, inr, List, [], ◌∷◌, Option, none, some, Bool-cases, ◌==◌,
}
use hft_clob_core.Domain.Side
use hft_clob_core.Domain.Qty.{Qty}
use hft_clob_core.Domain.Price.{Price}
use hft_clob_core.Domain.OrderId.{OrderId}
use hft_clob_core.Domain.AccountId.{AccountId}
use hft_clob_core.Domain.ExecState.{ExecState}
use hft_clob_core.Domain.RejectReason.{RejectReason}
use hft_clob_core.Domain.CancelReason.{CancelReason}
use hft_clob_core.Matching.Types.{Fill, StpCancellation, IdGenerator}
use hft_clob_core.Matching.Level.{PriceLevel, IsPriceLevel}
use hft_clob_core.Risk.{on_fill, account_of, notional_of}
use hft_clob_core.Risk.Limits.{on_order_removed-IsWithinCaps}
use hft_clob_core.Wire.Outbound.{RecvTs}
use hft_clob_core.Engine.{Engine, Clock, OrderRegistryEntry, drop_entry}
use hft_clob_core.Engine.Ids.{IsSequential}
use hft_clob_core.Engine.Reports.{
  emit_rejected, emit_exec_report_accepted, emit_exec_report_cancelled, emit_exec_report_replaced,
  emit_exec_report_fill, emit_trade_print_for_fill,
}
use hft_clob_core.Engine.Fills.{
  account_of_entry, fill_state, maker_leaves, taker_leaves, reduce_entry, set_last_trade,
  settle_maker, report_fill, emit_fills, emit_stp, emit_fills_for_taker, emit_stp_cancels,
}
use hft_clob_core.Engine.Effects.{
  IsEffect, IsPlain, engine_seq_of, silent, IsEffect-refl, IsEffect-trans, emit-IsEffect,
  drop_entry-IsEffect,
}

module _ {L G C : Type 0} ⦃pl : PriceLevel L⦄ ⦃law : IsPriceLevel pl⦄ ⦃gen : IdGenerator G⦄
    ⦃clk : Clock C⦄ (seq : IsSequential gen) where
  abbrev pub Plainly : Engine L G C → Engine L G C → Type 0
  Plainly e e' = IsEffect seq (Unit {0}) IsPlain e e'

  pub emit_rejected-IsEffect :
      (i : OrderId) (a : AccountId) (r : RejectReason) (t : RecvTs) (e : Engine L G C)
      → Plainly e (emit_rejected i a r t e)
  unfolding emit_rejected engine_seq_of
  emit_rejected-IsEffect i a r t e = emit-IsEffect seq _ e (λ n s. refl) (λ n s. refl)

  pub emit_accepted-IsEffect :
      (i : OrderId) (a : AccountId) (q : Qty) (t : RecvTs) (e : Engine L G C)
      → Plainly e (emit_exec_report_accepted i a q t e)
  unfolding emit_exec_report_accepted engine_seq_of
  emit_accepted-IsEffect i a q t e = emit-IsEffect seq _ e (λ n s. refl) (λ n s. refl)

  pub emit_cancelled-IsEffect :
      (i : OrderId) (a : AccountId) (r : CancelReason) (t : RecvTs) (e : Engine L G C)
      → Plainly e (emit_exec_report_cancelled i a r t e)
  unfolding emit_exec_report_cancelled engine_seq_of
  emit_cancelled-IsEffect i a r t e = emit-IsEffect seq _ e (λ n s. refl) (λ n s. refl)

  pub emit_replaced-IsEffect :
      (i : OrderId) (a : AccountId) (q : Qty) (t : RecvTs) (e : Engine L G C)
      → Plainly e (emit_exec_report_replaced i a q t e)
  unfolding emit_exec_report_replaced engine_seq_of
  emit_replaced-IsEffect i a q t e = emit-IsEffect seq _ e (λ n s. refl) (λ n s. refl)

  emit_fill-IsEffect :
      (i : OrderId) (a : AccountId) (x : ExecState) (p : Price) (q : Qty) (leaves : Option Qty)
      → (t : RecvTs) (e : Engine L G C) → Plainly e (emit_exec_report_fill i a x p q leaves t e)
  unfolding emit_exec_report_fill engine_seq_of
  emit_fill-IsEffect i a x p q leaves t e = emit-IsEffect seq _ e (λ n s. refl) (λ n s. refl)

  emit_print-IsEffect :
      (f : Fill) (s : Side.Side) (e : Engine L G C) → Plainly e (emit_trade_print_for_fill f s e)
  unfolding emit_trade_print_for_fill engine_seq_of
  emit_print-IsEffect f s e = emit-IsEffect seq _ e (λ n t. refl) (λ n t. refl)

  report_fill-IsEffect :
      (i : OrderId) (a : AccountId) (f : Fill) (n : ℕ) (t : RecvTs) (e : Engine L G C)
      → Plainly e (report_fill i a f n t e)
  unfolding report_fill
  report_fill-IsEffect i a f n t e =
      let maker = e.registry f.maker_order_id in
      let printed = emit_trade_print_for_fill f (Side.opposite f.maker_side) e in
      let made =
        emit_exec_report_fill f.maker_order_id (account_of_entry maker a)
          (fill_state f.maker_fully_filled) f.price f.qty
          (maker_leaves f.maker_fully_filled maker f.qty) t printed in
      IsEffect-trans seq (emit_print-IsEffect f (Side.opposite f.maker_side) e) (
        IsEffect-trans seq
          (emit_fill-IsEffect f.maker_order_id (account_of_entry maker a)
            (fill_state f.maker_fully_filled) f.price f.qty
            (maker_leaves f.maker_fully_filled maker f.qty) t printed)
          (emit_fill-IsEffect i a (fill_state (n == 0)) f.price f.qty (taker_leaves n) t made))

  pub set_last_trade-IsEffect : (p : Price) (e : Engine L G C) → Plainly e (set_last_trade p e)
  unfolding set_last_trade on_fill account_of
  set_last_trade-IsEffect p e = silent seq e _ refl refl (λ w. refl) (λ v. v) (λ v. v)

  reduce_entry-IsEffect :
      (i : OrderId) (p : Price) (q : Qty) (x : Option OrderRegistryEntry) (e : Engine L G C)
      → Plainly e (reduce_entry i p q x e)
  unfolding reduce_entry
  reduce_entry-IsEffect i p q none e = IsEffect-refl seq e
  reduce_entry-IsEffect i p q (some x) e =
      silent seq e _ refl refl (λ w. refl) (λ v. v)
        (on_order_removed-IsWithinCaps x.account_id (notional_of p q) e.risk)

  pub settle_maker-IsEffect : (f : Fill) (e : Engine L G C) → Plainly e (settle_maker f e)
  unfolding settle_maker
  settle_maker-IsEffect f e = elim (Bool-cases f.maker_fully_filled) [
    | inl h ↦ rw (h, settle_maker) (drop_entry-IsEffect seq f.maker_order_id e)
    | inr h ↦
        rw (h, settle_maker)
          (reduce_entry-IsEffect f.maker_order_id f.price f.qty (e.registry f.maker_order_id) e)
  ]

  pub emit_fills-IsEffect :
      (i : OrderId) (a : AccountId) (t : RecvTs) (fs : List Fill) (n : ℕ) (e : Engine L G C)
      → Plainly e (emit_fills i a t fs n e)
  unfolding emit_fills
  emit_fills-IsEffect i a t [] n e = IsEffect-refl seq e
  emit_fills-IsEffect i a t (f ∷ fs) n e =
      let reported = report_fill i a f (n - f.qty) t e in
      let priced = set_last_trade f.price reported in
      IsEffect-trans seq (report_fill-IsEffect i a f (n - f.qty) t e) (
        IsEffect-trans seq (set_last_trade-IsEffect f.price reported) (
          IsEffect-trans seq (settle_maker-IsEffect f priced)
            (emit_fills-IsEffect i a t fs (n - f.qty) (settle_maker f priced))))

  pub emit_stp-IsEffect :
      (t : RecvTs) (cs : List StpCancellation) (e : Engine L G C) → Plainly e (emit_stp t cs e)
  unfolding emit_stp
  emit_stp-IsEffect t [] e = IsEffect-refl seq e
  emit_stp-IsEffect t (c ∷ cs) e =
      let reported =
        emit_exec_report_cancelled c.order_id c.account_id CancelReason.self_trade_prevented t e in
      IsEffect-trans seq
        (emit_cancelled-IsEffect c.order_id c.account_id CancelReason.self_trade_prevented t e)
        (IsEffect-trans seq (drop_entry-IsEffect seq c.order_id reported)
          (emit_stp-IsEffect t cs (drop_entry c.order_id reported)))

  -- The reports of the fills and then of the self-trade cancels.
  pub emit_match-IsEffect :
      (i : OrderId) (a : AccountId) (q : Qty) (t : RecvTs) (e : Engine L G C)
      → Plainly e (emit_stp_cancels t (emit_fills_for_taker i a q t e))
  unfolding emit_fills_for_taker emit_stp_cancels
  emit_match-IsEffect i a q t e =
      IsEffect-trans seq (emit_fills-IsEffect i a t e.fills_buf q e) (emit_stp-IsEffect t _ _)
