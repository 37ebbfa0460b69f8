-- ===== src/Engine/Registry/Replacing.antt =====
-- `handle_cancel_replace` of crates/engine/src/engine.rs keeps every order on the book registered.
use hft_clob_core.Prelude.{
  ◌≤◌, ◌≡◌, refl, ◌∙◌, sym, subst, ap, inl, inr, Bool, true, false, not, ◌&&◌, Option, none, some,
  Bool-cases, Result-cases, is_some, Result, ok, err, if◌then◌else◌, ◌==◌, arith,
}
use hft_clob_core.Collections.HashMap
use hft_clob_core.Domain.Qty.{Qty}
use hft_clob_core.Domain.OrderId.{OrderId}
use hft_clob_core.Domain.AccountId.{AccountId}
use hft_clob_core.Domain.RejectReason.{RejectReason}
use hft_clob_core.Matching.Types.{BookError, OrderMeta, MatchResult, ReplaceOutcome, IdGenerator}
use hft_clob_core.Matching.Level.{PriceLevel, IsPriceLevel}
use hft_clob_core.Matching.Consistency.{IsBook}
use hft_clob_core.Matching.Consistency.Leaving.{index-cancel}
use hft_clob_core.Matching.Walk.Tracking.{is_gone}
use hft_clob_core.Matching.Walk.{Session}
use hft_clob_core.Matching.Modify.{replace}
use hft_clob_core.Matching.Modify.Replacing.{replace-IsBook}
use hft_clob_core.Matching.Modify.Tracking.{is_resting, IsReplaced, replace-IsReplaced}
use hft_clob_core.Risk.{on_order_resting, notional_of}
use hft_clob_core.Wire.Inbound.{CancelReplace}
use hft_clob_core.Wire.Outbound.{RecvTs}
use hft_clob_core.Engine.{
  Engine, Clock, OrderRegistryEntry, session_of, with_session, clear_buffers, emit,
}
use hft_clob_core.Engine.Reports.{
  emit_rejected, emit_exec_report_cancelled, emit_exec_report_replaced,
}
use hft_clob_core.Engine.Fills.{emit_fills_for_taker, emit_stp_cancels}
use hft_clob_core.Engine.Changes.{
  is_foreign, is_post_only_rejected, side_of_entry, refund_entry, register_rest, dispose_replaced,
  dispose_match, commit_replace, after_replace, replace_own, handle_cancel_replace,
}
use hft_clob_core.Engine.Effects.Commands.{guarded-either}
use hft_clob_core.Engine.Registry.{Covers, owner_of, emit_match-IsSettled}

module _ {L G C : Type 0} ⦃pl : PriceLevel L⦄ ⦃law : IsPriceLevel pl⦄ ⦃gen : IdGenerator G⦄
    ⦃clk : Clock C⦄ (msg : CancelReplace) (t : RecvTs) (old : Option OrderRegistryEntry) where
  -- The other orders on the book are registered, and the replaced one is of the account and side
  -- that its new entry will name.
  CoversOthers : Engine L G C → Type 0
  CoversOthers e =
      (i : OrderId) (m : OrderMeta)
      → e.book.index i ≡ some m
      → if i == msg.order_id
        then (m.account_id ≡ msg.account_id) × (m.side ≡ side_of_entry old)
        else owner_of (e.registry i) ≡ some (m.account_id, m.side)

  register_rest-Covers :
      (q : Qty) (r : Result RejectReason (Unit {0})) (e : Engine L G C)
      → IsBook e.book
      → CoversOthers e
      → Covers (register_rest msg t old q r e)
  unfolding register_rest emit_rejected emit HashMap.insert CoversOthers
  register_rest-Covers q (err r) e v c i m h = elim (Bool-cases (i == msg.order_id)) [
    | inl x ↦ absurd (ground (arith, index-cancel msg.order_id i e.book v))
    | inr x ↦ ground (arith, index-cancel msg.order_id i e.book v, rw x at (c i m))
  ]
  register_rest-Covers q (ok u) e v c i m h = elim (Bool-cases (i == msg.order_id)) [
    | inl x ↦ ground (arith, rw x at (c i m h))
    | inr x ↦ ground (arith, rw x at (c i m h))
  ]

  dispose_replaced-Covers :
      (stp : Bool) (rest : Option Qty) (e : Engine L G C)
      → IsBook e.book
      → CoversOthers e
      → ((not stp && is_some rest) ≡ false → e.book.index msg.order_id ≡ none)
      → Covers (dispose_replaced msg t old stp rest e)
  unfolding dispose_replaced emit_exec_report_cancelled emit CoversOthers
  dispose_replaced-Covers true rest e v c left i m h = elim (Bool-cases (i == msg.order_id)) [
    | inl x ↦ absurd (ground (arith, left refl))
    | inr x ↦ rw x at (c i m h)
  ]
  dispose_replaced-Covers false none e v c left i m h = elim (Bool-cases (i == msg.order_id)) [
    | inl x ↦ absurd (ground (arith, left refl))
    | inr x ↦ rw x at (c i m h)
  ]
  dispose_replaced-Covers false (some q) e v c left i m h =
      register_rest-Covers q _
        (record e {
          risk = (on_order_resting msg.account_id (notional_of msg.new_price q) e.risk).0;
        })
        v c i m h

  dispose_match-Covers :
      (r : Option MatchResult) (e : Engine L G C)
      → IsBook e.book
      → CoversOthers e
      → is_post_only_rejected r ≡ false
      → (is_resting r ≡ false → e.book.index msg.order_id ≡ none)
      → Covers (dispose_match msg t old r e)
  unfolding dispose_match
  dispose_match-Covers none e v c posted left =
      dispose_replaced-Covers false (some msg.new_qty) e v c λ h. left h
  dispose_match-Covers (some r) e v c posted left =
      dispose_replaced-Covers r.taker_stp_cancelled r.taker_remaining e v c
        λ h. left (ground (arith, posted))

  -- The engine after `Book::replace`: the other orders are registered but for those that have left
  -- the book, and the replaced one is on the book only if the answer says so.
  record IsWalked (r : Option MatchResult) (e : Engine L G C) : Type 0 where
    is_book : IsBook e.book
    others :
        (i : OrderId) (m : OrderMeta)
        → (i == msg.order_id) ≡ false
        → e.book.index i ≡ some m
        → (is_gone e.fills_buf e.stp_buf i ≡ false)
          × (owner_of (e.registry i) ≡ some (m.account_id, m.side))
    owner :
        (m : OrderMeta)
        → e.book.index msg.order_id ≡ some m
        → (m.account_id ≡ msg.account_id) × (m.side ≡ side_of_entry old)
    rests : is_resting r ≡ false → e.book.index msg.order_id ≡ none

  -- The entry of the replaced order is forgotten, and the replace acknowledged.
  unfoldable forgotten : Engine L G C → Engine L G C
  forgotten e =
      let refunded = refund_entry old e in
      emit_exec_report_replaced msg.order_id msg.account_id msg.new_qty t
        (record refunded { registry = HashMap.remove msg.order_id refunded.registry })

  record IsForgotten (e e' : Engine L G C) : Type 0 where
    book : e'.book ≡ e.book
    fills_buf : e'.fills_buf ≡ e.fills_buf
    stp_buf : e'.stp_buf ≡ e.stp_buf
    registry : (i : OrderId) → (i == msg.order_id) ≡ false → e'.registry i ≡ e.registry i

  forgotten-IsForgotten : (e : Engine L G C) → IsForgotten e (forgotten e)
  unfolding forgotten emit_exec_report_replaced emit HashMap.remove
  forgotten-IsForgotten e =
      elim old
        as (λ o. IsForgotten e (
          emit_exec_report_replaced msg.order_id msg.account_id msg.new_qty t
            (record (refund_entry o e) {
              registry = HashMap.remove msg.order_id (refund_entry o e).registry;
            }))) [
              | none ↦ record {
                book = refl;
                fills_buf = refl;
                stp_buf = refl;
                registry = λ i h. rw h refl;
              }
              | some x ↦ record {
                book = refl;
                fills_buf = refl;
                stp_buf = refl;
                registry = λ i h. rw h refl;
              }
            ]

  commit_replace-Covers :
      (r : Option MatchResult) (e : Engine L G C)
      → IsWalked r e
      → is_post_only_rejected r ≡ false
      → Covers (commit_replace msg t old r e)
  unfolding commit_replace forgotten CoversOthers
  commit_replace-Covers r e w posted =
      let f = forgotten-IsForgotten e in
      let d = emit_match-IsSettled msg.order_id msg.account_id msg.new_qty t (forgotten e) in
      let same = d.book ∙ f.book in
      let index : (i : OrderId) → _ ≡ e.book.index i = λ i. ap (λ b. b.index i) same in
      dispose_match-Covers r
        (emit_stp_cancels t
          (emit_fills_for_taker msg.order_id msg.account_id msg.new_qty t (forgotten e)))
        (subst IsBook (sym same) w.is_book)
        (λ i m h. elim (Bool-cases (i == msg.order_id)) [
          | inl x ↦ rw x (w.owner m (ground (arith, index i, h)))
          | inr x ↦
              let (stays, owned) = w.others i m x (sym (index i) ∙ h) in
              let gone : is_gone (forgotten e).fills_buf (forgotten e).stp_buf i ≡ false =
                rw (f.fills_buf, f.stp_buf) stays in
              rw x (d.owner i ∙ rw gone (ap owner_of (f.registry i x) ∙ owned))
        ])
        posted (λ h. index msg.order_id ∙ w.rests h)

-- The requester of a replace that is not foreign owns the entry.
own_entry :
    (x : Option OrderRegistryEntry) (a : AccountId) (m : OrderMeta)
    → is_foreign x a ≡ false
    → owner_of x ≡ some (m.account_id, m.side)
    → (m.account_id ≡ a) × (m.side ≡ side_of_entry x)
own_entry none a m h k = absurd (ground arith)
own_entry (some x) a m h k = (ground arith, ground arith)

module _ {L G C : Type 0} ⦃pl : PriceLevel L⦄ ⦃law : IsPriceLevel pl⦄ ⦃gen : IdGenerator G⦄
    ⦃clk : Clock C⦄ (msg : CancelReplace) (t : RecvTs)
    (listed : (l : L) → is_some (pl.snapshot_orders l) ≡ true) where
  replaced_session : Engine L G C → Session L G × Result BookError ReplaceOutcome
  replaced_session e = replace msg.order_id msg.new_price msg.new_qty (session_of (clear_buffers e))

  after_replace-Covers :
      (e : Engine L G C) (s : Session L G) (answer : Result BookError ReplaceOutcome)
      → IsReplaced (λ g. 0) msg.order_id (session_of (clear_buffers e)) s answer
      → IsBook s.book
      → Covers e
      → is_foreign (e.registry msg.order_id) msg.account_id ≡ false
      → Covers
          (after_replace msg t (e.registry msg.order_id) answer (with_session s (clear_buffers e)))
  unfolding after_replace with_session session_of clear_buffers emit_rejected emit
  after_replace-Covers e s answer r v c mine =
      let e' = with_session s (clear_buffers e) in
      let gone : (i : OrderId) → is_gone s.out_fills s.out_stp i ≡ is_gone r.fills r.stps i =
        λ i. rw (r.out_fills, r.out_stp) refl in
      let others : (i : OrderId) (m : OrderMeta)
          → (i == msg.order_id) ≡ false
          → s.book.index i ≡ some m
          → (is_gone s.out_fills s.out_stp i ≡ false)
            × (owner_of (e.registry i) ≡ some (m.account_id, m.side)) =
        λ i m x h. ground (arith, r.others i x, gone i, c i m) in
      let own : (m : OrderMeta)
          → s.book.index msg.order_id ≡ some m
          → owner_of (e.registry msg.order_id) ≡ some (m.account_id, m.side) =
        λ m h.
          let (m0, there, account, side) = r.owner m h in
          ground (arith, c msg.order_id m0 there, account, side) in
      let kept : Covers e' = λ i m h. elim (Bool-cases (i == msg.order_id)) [
        | inl x ↦ let same : i ≡ msg.order_id = ground arith in rw same (own m (rw same at h))
        | inr x ↦ (others i m x h).1
      ] in
      elim (Result-cases answer) [
        | inl (outcome, x) ↦ elim (Bool-cases (is_post_only_rejected outcome.match_result)) [
          | inl y ↦ rw x (rw y kept)
          | inr y ↦ rw x (
              rw y (
                commit_replace-Covers msg t (e.registry msg.order_id) outcome.match_result e'
                  (record {
                    is_book = v;
                    others = others;
                    owner =
                        λ m h. own_entry (e.registry msg.order_id) msg.account_id m mine (own m h);
                    rests = r.rests outcome x;
                  })
                  y))
        ]
        | inr (u, x) ↦ rw x kept
      ]

  pub handle_cancel_replace-Covers :
      (e : Engine L G C)
      → 1 ≤ msg.new_qty
      → IsBook e.book
      → Covers e
      → Covers (handle_cancel_replace msg t e)
  unfolding handle_cancel_replace replace_own session_of clear_buffers emit_rejected emit
      replaced_session
  handle_cancel_replace-Covers e lots v c =
      let s = session_of (clear_buffers e) in
      guarded-either Covers _ _ (replace_own msg t) e (λ r. c)
        (elim (Bool-cases (is_foreign (e.registry msg.order_id) msg.account_id)) [
          | inl x ↦ rw (x, replace_own) c
          | inr x ↦
              rw (x, replace_own)
                (after_replace-Covers e (replaced_session e).0 (replaced_session e).1
                  (replace-IsReplaced (λ g. 0) (λ g. refl) listed msg.order_id msg.new_price
                    msg.new_qty s v)
                  (replace-IsBook msg.order_id msg.new_price msg.new_qty s v listed lots) c x)
        ])
