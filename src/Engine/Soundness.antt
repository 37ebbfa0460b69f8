-- ===== src/Engine/Soundness.antt =====
-- The invariant of the engine of crates/engine/src/engine.rs, through every step.
use hft_clob_core.Prelude.{
  ℕ, ◌≡◌, List, [], ◌∷◌, is_some, All, zero, suc, if◌then◌else◌, ◌==◌, true, false, arith,
}
use hft_clob_core.Matching.Types.{IdGenerator}
use hft_clob_core.Matching.Level.{PriceLevel, IsPriceLevel}
use hft_clob_core.Matching.Consistency.{IsBook, empty_book-IsBook}
use hft_clob_core.Risk.Limits.{IsWithinCaps}
use hft_clob_core.Wire.Inbound.{
  Inbound, new_order, cancel_order, cancel_replace, mass_cancel, kill_switch_set, snapshot_request,
}
use hft_clob_core.Wire.Outbound.{RecvTs}
use hft_clob_core.Engine
use hft_clob_core.Engine.{Engine, Clock, emit}
use hft_clob_core.Engine.Ids.{IsSequential}
use hft_clob_core.Engine.Reports.{emit_l2_delta, emit_book_update_top}
use hft_clob_core.Engine.Changes.{handle_kill_switch, handle_snapshot_request}
use hft_clob_core.Engine.Deltas.{
  StepLevels, same_key, key_before, diff_round, diff, emit_l2_deltas, capture_pre_step_levels,
  capture_post_step_levels,
}
use hft_clob_core.Engine.Step.{with_book_changes, dispatch, step, run}
use hft_clob_core.Engine.Effects.Steps.{HasLots, dispatch-IsEffect}
use hft_clob_core.Engine.Registry.{Covers}
use hft_clob_core.Engine.Registry.Entering.{handle_new_order-Covers}
use hft_clob_core.Engine.Registry.Cancelling.{handle_cancel_order-Covers, handle_mass_cancel-Covers}
use hft_clob_core.Engine.Registry.Replacing.{handle_cancel_replace-Covers}

module _ {L G C : Type 0} ⦃gen : IdGenerator G⦄ ⦃clk : Clock C⦄ where
  CoversRound : StepLevels × StepLevels × Engine L G C → Type 0
  CoversRound (pre, post, e) = Covers e

  diff_round-Covers :
      (pre post : StepLevels) (e : Engine L G C) → Covers e → CoversRound (diff_round pre post e)
  unfolding diff_round CoversRound emit_l2_delta emit
  diff_round-Covers [] [] e c = c
  diff_round-Covers ((s, p, n) ∷ pre) [] e c = c
  diff_round-Covers [] ((s, p, n) ∷ post) e c = c
  diff_round-Covers ((s, p, n) ∷ pre) ((s', p', n') ∷ post) e c =
      elim (same_key s p s' p')
        as (λ b. CoversRound (
          if b
          then (pre, post, if n == n' then e else emit_l2_delta s' p' n' e)
          else if key_before s p s' p'
          then (pre, (s', p', n') ∷ post, emit_l2_delta s p 0 e)
          else ((s, p, n) ∷ pre, post, emit_l2_delta s' p' n' e))) [
            | true ↦ elim (n == n') as (λ b. Covers (if b then e else emit_l2_delta s' p' n' e)) [
              | true ↦ c
              | false ↦ c
            ]
            | false ↦
                elim (key_before s p s' p')
                  as (λ b. CoversRound (
                    if b
                    then (pre, (s', p', n') ∷ post, emit_l2_delta s p 0 e)
                    else ((s, p, n) ∷ pre, post, emit_l2_delta s' p' n' e))) [
                      | true ↦ c
                      | false ↦ c
                    ]
          ]

  diff-Covers :
      (fuel : ℕ) (pre post : StepLevels) (e : Engine L G C)
      → Covers e
      → Covers (diff fuel pre post e)
  unfolding diff CoversRound
  diff-Covers zero pre post e c = c
  diff-Covers (suc fuel) pre post e c =
      diff-Covers fuel _ _ (diff_round pre post e).2 (diff_round-Covers pre post e c)

module _ {L G C : Type 0} ⦃pl : PriceLevel L⦄ ⦃law : IsPriceLevel pl⦄ ⦃gen : IdGenerator G⦄
    ⦃clk : Clock C⦄ where
  -- The book is well formed, and every order on it is registered for its account and side.
  pub record IsEngine (e : Engine L G C) : Type 0 where
    pub book : IsBook e.book
    pub covered : Covers e

  -- The engine of `Engine::new`.
  pub new-IsEngine : (clock : C) (ids : G) → IsEngine (Engine.new clock ids)
  unfolding Engine.new
  new-IsEngine clock ids = record {
    book = empty_book-IsBook;
    covered = λ i m h. absurd (ground arith);
  }

  with_book_changes-Covers :
      (handle : Engine L G C → Engine L G C) (e : Engine L G C)
      → Covers (handle (capture_pre_step_levels e))
      → Covers (with_book_changes handle e)
  unfolding with_book_changes emit_book_update_top emit emit_l2_deltas capture_post_step_levels
  with_book_changes-Covers handle e c = diff-Covers _ _ _ (capture_post_step_levels (handle _)) c

  module _ (seq : IsSequential gen) (listed : (l : L) → is_some (pl.snapshot_orders l) ≡ true) where
    dispatch-Covers :
        (inbound : Inbound) (t : RecvTs) (e : Engine L G C)
        → HasLots inbound
        → IsBook e.book
        → Covers e
        → Covers (dispatch inbound t e)
    unfolding dispatch handle_kill_switch handle_snapshot_request emit capture_pre_step_levels
    dispatch-Covers (new_order msg) t e lots v c =
        with_book_changes-Covers _ e
          (handle_new_order-Covers msg t (capture_pre_step_levels e) listed v c)
    dispatch-Covers (cancel_order msg) t e lots v c =
        with_book_changes-Covers _ e
          (handle_cancel_order-Covers msg t (capture_pre_step_levels e) v c)
    dispatch-Covers (cancel_replace msg) t e lots v c =
        with_book_changes-Covers _ e
          (handle_cancel_replace-Covers msg t listed (capture_pre_step_levels e) lots v c)
    dispatch-Covers (mass_cancel msg) t e lots v c =
        with_book_changes-Covers _ e
          (handle_mass_cancel-Covers msg t (capture_pre_step_levels e) v c)
    dispatch-Covers (kill_switch_set msg) t e lots v c = c
    dispatch-Covers (snapshot_request msg) t e lots v c = c

    step-IsEngine :
        (inbound : Inbound) (e : Engine L G C)
        → HasLots inbound
        → IsEngine e
        → IsEngine (step inbound e)
    unfolding step
    step-IsEngine inbound e lots v =
        let e1 : Engine L G C = record e { clock = (clk.now e.clock).1 } in
        let x = dispatch-IsEffect seq listed inbound (clk.now e.clock).0 e1 lots in
        record {
          book = x.book v.book;
          covered = dispatch-Covers inbound (clk.now e.clock).0 e1 lots v.book v.covered;
        }

    -- Whatever commands arrive, orders and replaces of at least one lot each, the book stays well
    -- formed, and every order on it registered for its account and side, if both held before. The
    -- listing of a level must not fail.
    pub run-IsEngine :
        (ms : List Inbound) (e : Engine L G C) → All HasLots ms → IsEngine e → IsEngine (run ms e)
    unfolding run
    run-IsEngine [] e lots v = v
    run-IsEngine (m ∷ ms) e lots v = run-IsEngine ms (step m e) lots.1 (step-IsEngine m e lots.0 v)

    -- Whatever commands arrive, orders and replaces of at least one lot each, the risk state counts
    -- no account over its cap on orders or on notional, if it did not before. These are its counters
    -- alone: a partial fill lowers the count of the maker's orders although the order stays, so that
    -- more orders may rest than are counted. The listing of a level must not fail.
    pub run-IsWithinCaps :
        (ms : List Inbound) (e : Engine L G C)
        → All HasLots ms
        → IsWithinCaps e.risk
        → IsWithinCaps (run ms e).risk
    unfolding run step
    run-IsWithinCaps [] e lots v = v
    run-IsWithinCaps (m ∷ ms) e lots v =
        let e1 : Engine L G C = record e { clock = (clk.now e.clock).1 } in
        let x = dispatch-IsEffect seq listed m (clk.now e.clock).0 e1 lots.0 in
        run-IsWithinCaps ms (step m e) lots.1 (x.caps v)
