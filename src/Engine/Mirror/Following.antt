-- ===== src/Engine/Mirror/Following.antt =====
-- A subscriber that applies the messages of crates/engine/src/engine.rs follows the book.
use hft_clob_core.Prelude.{
  ◌+◌, ◌≡◌, refl, ◌∙◌, sym, ap, subst, true, List, [], ◌∷◌, ◌++◌, append_assoc, append-nil, is_some,
  All, length, arith,
}
use hft_clob_core.Domain.Side.{Side}
use hft_clob_core.Domain.Price.{Price}
use hft_clob_core.Matching.Types.{IdGenerator}
use hft_clob_core.Matching.Level.{PriceLevel, IsPriceLevel}
use hft_clob_core.Matching.Book.{Book, qty_at_level}
use hft_clob_core.Matching.Consistency.{IsBook}
use hft_clob_core.Matching.Ladder.{SidesAscend}
use hft_clob_core.Wire.Inbound.{
  Inbound, SnapshotRequest, new_order, cancel_order, cancel_replace, mass_cancel, kill_switch_set,
  snapshot_request,
}
use hft_clob_core.Wire.Outbound.{RecvTs, Outbound}
use hft_clob_core.Engine.{Engine, Clock, emit}
use hft_clob_core.Engine.Ids.{IsSequential}
use hft_clob_core.Engine.Reports.{emit_book_update_top}
use hft_clob_core.Engine.Changes.{handle_kill_switch, handle_snapshot_request}
use hft_clob_core.Engine.Deltas.{
  capture_levels, emit_l2_deltas, capture_pre_step_levels, capture_post_step_levels,
}
use hft_clob_core.Engine.Step.{with_book_changes, dispatch, step, run}
use hft_clob_core.Engine.Effects.{IsPlain}
use hft_clob_core.Engine.Effects.Filling.{Plainly}
use hft_clob_core.Engine.Effects.Commands.{
  handle_new_order-IsEffect, handle_cancel_order-IsEffect, handle_mass_cancel-IsEffect,
}
use hft_clob_core.Engine.Effects.Replacing.{handle_cancel_replace-IsEffect}
use hft_clob_core.Engine.Effects.Steps.{HasLots, dispatch-IsEffect}
use hft_clob_core.Engine.Mirror.{Mirror, lookup, apply_all, apply_all-append, apply_all-plain}
use hft_clob_core.Engine.Mirror.Merging.{IsSorted}
use hft_clob_core.Engine.Mirror.Diffing.{diff-IsDiff}
use hft_clob_core.Engine.Mirror.Capturing.{lookup-capture_levels, capture_levels-IsSorted}

module _ {L : Type 0} ⦃pl : PriceLevel L⦄ where
  -- The mirror shows the book.
  abbrev pub Shows : Mirror → Book L → Type 0
  Shows mirror b = (s : Side) (p : Price) → mirror s p ≡ qty_at_level s p b

module _ {L G C : Type 0} ⦃pl : PriceLevel L⦄ where
  -- From `e` to `e'` messages are sent that carry a mirror of the one book to one of the other.
  record Carries (b b' : Book L) (e e' : Engine L G C) : Type 0 where
    messages : List Outbound
    sent : e'.sink ≡ e.sink ++ messages
    follows : (mirror : Mirror) → Shows mirror b → Shows (apply_all messages mirror) b'

  Carries-trans :
      {b c d : Book L} {x y z : Engine L G C} → Carries b c x y → Carries c d y z → Carries b d x z
  Carries-trans {x = x} h k = record {
    messages = h.messages ++ k.messages;
    sent = rw (k.sent, h.sent) (append_assoc x.sink h.messages k.messages);
    follows = λ mirror shown.
        rw (apply_all-append h.messages k.messages mirror)
          (k.follows (apply_all h.messages mirror) (h.follows mirror shown));
  }

  plain-Carries :
      (b : Book L) (e e' : Engine L G C) (ms : List Outbound)
      → e'.sink ≡ e.sink ++ ms
      → All IsPlain ms
      → Carries b b e e'
  plain-Carries b e e' ms sent plain = record {
    messages = ms;
    sent = sent;
    follows = λ mirror shown. rw (apply_all-plain ms mirror plain) shown;
  }

  unsent-Carries : (b : Book L) (e e' : Engine L G C) → e'.sink ≡ e.sink → Carries b b e e'
  unsent-Carries b e e' h = plain-Carries b e e' [] (h ∙ sym (append-nil e.sink)) tt

module _ {L G C : Type 0} ⦃pl : PriceLevel L⦄ ⦃gen : IdGenerator G⦄ ⦃clk : Clock C⦄ where
  top-Carries :
      (b : Book L) (e : Engine L G C)
      → Carries b b e (emit_book_update_top e) × ((emit_book_update_top e).book ≡ e.book)
  unfolding emit_book_update_top emit
  top-Carries b e = (plain-Carries b e _ _ refl (refl, tt), refl)

  snapshot-Carries :
      (msg : SnapshotRequest) (t : RecvTs) (e : Engine L G C)
      → Carries e.book (handle_snapshot_request msg t e).book e (handle_snapshot_request msg t e)
  unfolding handle_snapshot_request emit
  snapshot-Carries msg t e = plain-Carries e.book e _ _ refl (refl, tt)

  emit_l2_deltas-Carries :
      (b b' : Book L) (e : Engine L G C)
      → e.pre_step_levels ≡ capture_levels b
      → e.post_step_levels ≡ capture_levels b'
      → SidesAscend b
      → SidesAscend b'
      → Carries b b' e (emit_l2_deltas e) × ((emit_l2_deltas e).book ≡ e.book)
  unfolding emit_l2_deltas
  emit_l2_deltas-Carries b b' e before after a a' =
      let d =
        diff-IsDiff (length e.pre_step_levels + length e.post_step_levels) e.pre_step_levels
          e.post_step_levels e (omega arith)
          (subst IsSorted (sym before) (capture_levels-IsSorted b a))
          (subst IsSorted (sym after) (capture_levels-IsSorted b' a')) in
      (
        record {
          messages = d.messages;
          sent = d.sent;
          follows = λ mirror shown s p.
              d.changes mirror s p (
                shown s p
                ∙ sym (lookup-capture_levels b s p)
                ∙ ap (λ lv. lookup lv s p) (sym before))
              ∙ ap (λ lv. lookup lv s p) after
              ∙ lookup-capture_levels b' s p;
        },
        d.book,
      )

module _ {L : Type 0} ⦃pl : PriceLevel L⦄ ⦃law : IsPriceLevel pl⦄ where
  sides : (b : Book L) → IsBook b → SidesAscend b
  sides b v = (v.consistent.bids_ascend, v.consistent.asks_ascend)

module _ {L G C : Type 0} ⦃pl : PriceLevel L⦄ ⦃law : IsPriceLevel pl⦄ ⦃gen : IdGenerator G⦄
    ⦃clk : Clock C⦄ (seq : IsSequential gen) where
  with_book_changes-Carries :
      (handle : Engine L G C → Engine L G C) (e : Engine L G C)
      → ((e : Engine L G C) → Plainly seq e (handle e))
      → IsBook e.book
      → Carries e.book (with_book_changes handle e).book e (with_book_changes handle e)
  unfolding with_book_changes capture_pre_step_levels capture_post_step_levels
  with_book_changes-Carries handle e h v =
      let pre = capture_pre_step_levels e in
      let post = capture_post_step_levels (handle pre) in
      let handled = h pre in
      let (deltas, same) =
        emit_l2_deltas-Carries e.book (handle pre).book post (handled.captured tt) refl
          (sides e.book v) (sides (handle pre).book (handled.book v)) in
      let (top, kept) = top-Carries (handle pre).book (emit_l2_deltas post) in
      Carries-trans (unsent-Carries e.book e pre refl) (
        Carries-trans
          (plain-Carries e.book pre (handle pre) handled.messages handled.sent handled.allowed)
          (Carries-trans (unsent-Carries e.book (handle pre) post refl) (
            subst (λ b. Carries e.book b post (emit_book_update_top (emit_l2_deltas post)))
              (sym (kept ∙ same)) (Carries-trans deltas top))))

  module _ (listed : (l : L) → is_some (pl.snapshot_orders l) ≡ true) where
    dispatch-Carries :
        (inbound : Inbound) (t : RecvTs) (e : Engine L G C)
        → HasLots inbound
        → IsBook e.book
        → Carries e.book (dispatch inbound t e).book e (dispatch inbound t e)
    unfolding dispatch handle_kill_switch
    dispatch-Carries (new_order msg) t e lots v =
        with_book_changes-Carries _ e (λ e. handle_new_order-IsEffect seq listed msg t e lots) v
    dispatch-Carries (cancel_order msg) t e lots v =
        with_book_changes-Carries _ e (λ e. handle_cancel_order-IsEffect seq listed msg t e) v
    dispatch-Carries (cancel_replace msg) t e lots v =
        with_book_changes-Carries _ e (λ e. handle_cancel_replace-IsEffect seq listed msg t e lots)
          v
    dispatch-Carries (mass_cancel msg) t e lots v =
        with_book_changes-Carries _ e (λ e. handle_mass_cancel-IsEffect seq listed msg t e) v
    dispatch-Carries (kill_switch_set msg) t e lots v = unsent-Carries e.book e _ refl
    dispatch-Carries (snapshot_request msg) t e lots v = snapshot-Carries msg t e

    step-Carries :
        (inbound : Inbound) (e : Engine L G C)
        → HasLots inbound
        → IsBook e.book
        → Carries e.book (step inbound e).book e (step inbound e) × IsBook (step inbound e).book
    unfolding step
    step-Carries inbound e lots v = (
      Carries-trans (unsent-Carries e.book e _ refl) (dispatch-Carries inbound _ _ lots v),
      (dispatch-IsEffect seq listed inbound _ _ lots).book v,
    )

    run-Carries :
        (ms : List Inbound) (e : Engine L G C)
        → All HasLots ms
        → IsBook e.book
        → Carries e.book (run ms e).book e (run ms e)
    unfolding run
    run-Carries [] e lots v = unsent-Carries e.book e e refl
    run-Carries (m ∷ ms) e lots v =
        let (first, v') = step-Carries m e lots.0 v in
        Carries-trans first (run-Carries ms (step m e) lots.1 v')

    -- A subscriber that holds the lots of each level of a well-formed book, and applies the level
    -- deltas among the messages that a sequence of commands sends, holds the lots of each level of
    -- the book after them. Orders and replaces have at least one lot each, and the listing of a
    -- level must not fail.
    pub mirror_follows :
        (ms : List Inbound) (e : Engine L G C) (mirror : Mirror)
        → All HasLots ms
        → IsBook e.book
        → Shows mirror e.book
        → (new : List Outbound) × ((run ms e).sink ≡ e.sink ++ new)
          × Shows (apply_all new mirror) (run ms e).book
    mirror_follows ms e mirror lots v shown =
        let c = run-Carries ms e lots v in (c.messages, c.sent, c.follows mirror shown)
