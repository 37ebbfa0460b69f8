-- ===== src/Engine/Registry/Entering.antt =====
-- `handle_new_order` of crates/engine/src/engine.rs keeps every order on the book registered.
use hft_clob_core.Prelude.{
  ◌≡◌, refl, ◌∙◌, sym, ap, subst, inl, inr, Bool, true, false, Option, none, some, Result-cases,
  is_some, Result, ok, err, if◌then◌else◌, arith,
}
use hft_clob_core.Collections.HashMap
use hft_clob_core.Domain.Qty.{Qty}
use hft_clob_core.Domain.OrderId.{OrderId}
use hft_clob_core.Domain.Price.{Price}
use hft_clob_core.Domain.Tif.{Tif, gtc, ioc, post_only}
use hft_clob_core.Domain.RejectReason.{RejectReason}
use hft_clob_core.Matching.Types.{OrderMeta, MatchResult, IdGenerator}
use hft_clob_core.Matching.Level.{PriceLevel, IsPriceLevel}
use hft_clob_core.Matching.Resting.{add_resting, meta_of}
use hft_clob_core.Matching.Consistency.{IsBook}
use hft_clob_core.Matching.Consistency.Adding.{add_resting_refused, add_resting_accepted}
use hft_clob_core.Matching.Walk.{match_aggressive}
use hft_clob_core.Matching.Walk.Guarantees.{match_aggressive-IsBook}
use hft_clob_core.Matching.Walk.Tracking.{is_gone, match_aggressive-Tracks}
use hft_clob_core.Risk.{on_order_resting, notional_of}
use hft_clob_core.Wire.Inbound.{NewOrder}
use hft_clob_core.Wire.Outbound.{RecvTs}
use hft_clob_core.Engine.{Engine, Clock, emit, session_of, with_session, clear_buffers}
use hft_clob_core.Engine.Reports.{
  emit_rejected, emit_exec_report_accepted, emit_exec_report_cancelled,
}
use hft_clob_core.Engine.Fills.{emit_fills_for_taker, emit_stp_cancels}
use hft_clob_core.Engine.Entry.{
  resting_order, aggressive_order, entry_of, finish_resting, rest_counted, rest_taker, route_rest,
  dispose_taker, after_match, match_new_order, handle_new_order, reject_new,
}
use hft_clob_core.Engine.Effects.Commands.{guarded-either}
use hft_clob_core.Engine.Registry.{Covers, owner_of, emit_match-IsSettled}

module _ {L G C : Type 0} ⦃pl : PriceLevel L⦄ ⦃law : IsPriceLevel pl⦄ ⦃gen : IdGenerator G⦄
    ⦃clk : Clock C⦄ (msg : NewOrder) (t : RecvTs) where
  rest_counted-Covers :
      (p : Price) (q : Qty) (r : Result RejectReason (Unit {0})) (e : Engine L G C)
      → IsBook e.book
      → Covers e
      → Covers (rest_counted msg t p q r e)
  unfolding rest_counted finish_resting emit_rejected emit_exec_report_accepted emit HashMap.insert
      resting_order meta_of entry_of
  rest_counted-Covers p q (err r) e v c i m = c i m
  rest_counted-Covers p q (ok u) e v c i m =
      elim (Result-cases (add_resting (resting_order msg p q) e.book).1) [
        | inl (u', x) ↦
            let added = add_resting_accepted (resting_order msg p q) e.book v x in
            rw (x, finish_resting) λ h. ground (arith, added.2 i, c i m)
        | inr (u, x) ↦
            let same = add_resting_refused (resting_order msg p q) e.book u v x in
            rw (x, finish_resting) λ h. c i m (ap (λ b. b.index i) (sym same) ∙ h)
      ]

  route_rest-Covers :
      (tif : Tif) (p : Option Price) (q : Qty) (e : Engine L G C)
      → IsBook e.book
      → Covers e
      → Covers (route_rest msg t tif p q e)
  unfolding route_rest rest_taker emit_exec_report_cancelled emit
  route_rest-Covers ioc p q e v c = c
  route_rest-Covers gtc (some p) q e v c =
      rest_counted-Covers p q _
        (record e { risk = (on_order_resting msg.account_id (notional_of p q) e.risk).0 }) v c
  route_rest-Covers gtc none q e v c = c
  route_rest-Covers post_only (some p) q e v c =
      rest_counted-Covers p q _
        (record e { risk = (on_order_resting msg.account_id (notional_of p q) e.risk).0 }) v c
  route_rest-Covers post_only none q e v c = c

  dispose_taker-Covers :
      (stp : Bool) (rest : Option Qty) (e : Engine L G C)
      → IsBook e.book
      → Covers e
      → Covers (dispose_taker msg t stp rest e)
  unfolding dispose_taker emit_exec_report_cancelled emit
  dispose_taker-Covers true rest e v c = c
  dispose_taker-Covers false none e v c = c
  dispose_taker-Covers false (some q) e v c = route_rest-Covers msg.tif msg.price q e v c

  -- `e` after the walk: what the buffers tell of has left the book, and no entry has.
  after_match-Covers :
      (r : MatchResult) (e : Engine L G C)
      → IsBook e.book
      → ((i : OrderId) (m : OrderMeta)
          → e.book.index i ≡ some m
          → (is_gone e.fills_buf e.stp_buf i ≡ false)
            × (owner_of (e.registry i) ≡ some (m.account_id, m.side)))
      → Covers (after_match msg t r e)
  unfolding after_match emit_rejected emit
  after_match-Covers r e v walked =
      let d = emit_match-IsSettled msg.order_id msg.account_id msg.qty t e in
      let reported =
        emit_stp_cancels t (emit_fills_for_taker msg.order_id msg.account_id msg.qty t e) in
      let v' : IsBook reported.book = subst IsBook (sym d.book) v in
      let c : Covers reported = λ i m h.
        let (stays, owner) = walked i m (ap (λ b. b.index i) (sym d.book) ∙ h) in
        ground (arith, d.owner i, stays, owner) in
      elim r.taker_post_only_rejected
        as (λ b. Covers (
          if b
          then reject_new msg t RejectReason.post_only_would_cross e
          else dispose_taker msg t r.taker_stp_cancelled r.taker_remaining reported)) [
            | true ↦ λ i m h. (walked i m h).1
            | false ↦ dispose_taker-Covers r.taker_stp_cancelled r.taker_remaining reported v' c
          ]

  match_new_order-Covers :
      (e : Engine L G C)
      → ((l : L) → is_some (pl.snapshot_orders l) ≡ true)
      → IsBook e.book
      → Covers e
      → Covers (match_new_order msg t e)
  unfolding match_new_order with_session session_of clear_buffers
  match_new_order-Covers e listed v c =
      let cleared = clear_buffers e in
      let s = session_of cleared in
      let taker = aggressive_order msg in
      let walk = match_aggressive taker s in
      let tracked = match_aggressive-Tracks (λ g. 0) (λ g. refl) taker s in
      after_match-Covers walk.1 (with_session walk.0 cleared)
        (match_aggressive-IsBook taker s v listed)
        λ i m h.
          let gone : is_gone walk.0.out_fills walk.0.out_stp i
              ≡ is_gone tracked.fills tracked.stps i =
            rw (tracked.out_fills, tracked.out_stp) refl in
          ground (arith, tracked.index i, gone, c i m)

  pub handle_new_order-Covers :
      (e : Engine L G C)
      → ((l : L) → is_some (pl.snapshot_orders l) ≡ true)
      → IsBook e.book
      → Covers e
      → Covers (handle_new_order msg t e)
  unfolding handle_new_order emit_rejected emit
  handle_new_order-Covers e listed v c =
      guarded-either Covers _ _ (match_new_order msg t) e (λ r. c)
        (match_new_order-Covers e listed v c)
