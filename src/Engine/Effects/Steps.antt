-- ===== src/Engine/Effects/Steps.antt =====
-- `Engine::step` and a sequence of commands, as effects.
use hft_clob_core.Prelude.{
  ℕ, zero, suc, ◌+◌, ◌≤◌, ◌≡◌, refl, true, false, List, [], ◌∷◌, ◌++◌, is_some, All, if◌then◌else◌,
  ◌==◌, length,
}
use hft_clob_core.Domain.Side.{Side}
use hft_clob_core.Domain.Price.{Price}
use hft_clob_core.Matching.Types.{IdGenerator}
use hft_clob_core.Matching.Level.{PriceLevel, IsPriceLevel}
use hft_clob_core.Risk.{set_kill_switch, account_of}
use hft_clob_core.Wire.Inbound.{
  Inbound, KillSwitchSet, SnapshotRequest, new_order, cancel_order, cancel_replace, mass_cancel,
  kill_switch_set, snapshot_request,
}
use hft_clob_core.Wire.Outbound.{RecvTs, Outbound}
use hft_clob_core.Engine.{Engine, Clock}
use hft_clob_core.Engine.Ids.{IsSequential}
use hft_clob_core.Engine.Reports.{emit_l2_delta, emit_book_update_top}
use hft_clob_core.Engine.Changes.{handle_kill_switch, handle_snapshot_request}
use hft_clob_core.Engine.Deltas.{
  StepLevels, same_key, key_before, diff_round, diff, emit_l2_deltas, capture_pre_step_levels,
  capture_post_step_levels,
}
use hft_clob_core.Engine.Step.{with_book_changes, dispatch, step, run}
use hft_clob_core.Engine.Effects.{
  IsEffect, IsNumbered, Anything, engine_seq_of, silent, IsEffect-refl, IsEffect-trans,
  emit-IsEffect,
}
use hft_clob_core.Engine.Effects.Filling.{Plainly}
use hft_clob_core.Engine.Effects.Commands.{
  handle_new_order-IsEffect, handle_cancel_order-IsEffect, handle_mass_cancel-IsEffect,
}
use hft_clob_core.Engine.Effects.Replacing.{handle_cancel_replace-IsEffect}

-- The decoder lets no order without lots pass.
abbrev pub HasLots : Inbound → Type 0
HasLots (new_order msg) = 1 ≤ msg.qty
HasLots (cancel_order msg) = Unit {0}
HasLots (cancel_replace msg) = 1 ≤ msg.new_qty
HasLots (mass_cancel msg) = Unit {0}
HasLots (kill_switch_set msg) = Unit {0}
HasLots (snapshot_request msg) = Unit {0}

All-Anything : (ms : List Outbound) → All (λ m. Unit {0}) ms
All-Anything [] = tt
All-Anything (m ∷ ms) = (tt, All-Anything ms)

module _ {L G C : Type 0} ⦃pl : PriceLevel L⦄ ⦃law : IsPriceLevel pl⦄ ⦃gen : IdGenerator G⦄
    ⦃clk : Clock C⦄ (seq : IsSequential gen) where
  abbrev Follows : Engine L G C → Engine L G C → Type 0
  Follows e e' = IsEffect seq ⊥ Anything e e'

  pub of_plain : {e e' : Engine L G C} → Plainly seq e e' → Follows e e'
  of_plain h = record {
    messages = h.messages;
    sent = h.sent;
    numbered = h.numbered;
    allowed = All-Anything h.messages;
    upcoming = h.upcoming;
    book = h.book;
    caps = h.caps;
    captured = λ w. absurd w;
  }

  emit_l2_delta-IsEffect :
      (s : Side) (p : Price) (n : ℕ) (e : Engine L G C) → Follows e (emit_l2_delta s p n e)
  unfolding emit_l2_delta engine_seq_of
  emit_l2_delta-IsEffect s p n e = emit-IsEffect seq _ e (λ n t. refl) (λ n t. tt)

  abbrev FollowsRound : Engine L G C → StepLevels × StepLevels × Engine L G C → Type 0
  FollowsRound e (pre, post, e') = Follows e e'

  diff_round-IsEffect :
      (pre post : StepLevels) (e : Engine L G C) → Follows e (diff_round pre post e).2
  unfolding diff_round
  diff_round-IsEffect [] [] e = IsEffect-refl seq e
  diff_round-IsEffect ((s, p, n) ∷ pre) [] e = emit_l2_delta-IsEffect s p 0 e
  diff_round-IsEffect [] ((s, p, n) ∷ post) e = emit_l2_delta-IsEffect s p n e
  diff_round-IsEffect ((s, p, n) ∷ pre) ((s', p', n') ∷ post) e =
      elim (same_key s p s' p')
        as (λ b. FollowsRound e (
          if b
          then (pre, post, if n == n' then e else emit_l2_delta s' p' n' e)
          else if key_before s p s' p'
          then (pre, (s', p', n') ∷ post, emit_l2_delta s p 0 e)
          else ((s, p, n) ∷ pre, post, emit_l2_delta s' p' n' e))) [
            | true ↦
                elim (n == n') as (λ b. Follows e (if b then e else emit_l2_delta s' p' n' e)) [
                  | true ↦ IsEffect-refl seq e
                  | false ↦ emit_l2_delta-IsEffect s' p' n' e
                ]
            | false ↦
                elim (key_before s p s' p')
                  as (λ b. FollowsRound e (
                    if b
                    then (pre, (s', p', n') ∷ post, emit_l2_delta s p 0 e)
                    else ((s, p, n) ∷ pre, post, emit_l2_delta s' p' n' e))) [
                      | true ↦ emit_l2_delta-IsEffect s p 0 e
                      | false ↦ emit_l2_delta-IsEffect s' p' n' e
                    ]
          ]

  diff-IsEffect :
      (fuel : ℕ) (pre post : StepLevels) (e : Engine L G C) → Follows e (diff fuel pre post e)
  unfolding diff
  diff-IsEffect zero pre post e = IsEffect-refl seq e
  diff-IsEffect (suc fuel) pre post e =
      IsEffect-trans seq (diff_round-IsEffect pre post e) (diff-IsEffect fuel _ _ _)

  emit_book_update_top-IsEffect : (e : Engine L G C) → Follows e (emit_book_update_top e)
  unfolding emit_book_update_top engine_seq_of
  emit_book_update_top-IsEffect e = emit-IsEffect seq _ e (λ n t. refl) (λ n t. tt)

  -- The messages about the book after the handler.
  pub tail-IsEffect :
      (handle : Engine L G C → Engine L G C) (e : Engine L G C)
      → Follows (handle (capture_pre_step_levels e)) (with_book_changes handle e)
  unfolding with_book_changes capture_pre_step_levels capture_post_step_levels emit_l2_deltas
  tail-IsEffect handle e =
      let handled = handle (capture_pre_step_levels e) in
      let post = capture_post_step_levels handled in
      IsEffect-trans seq (silent seq handled post refl refl (λ w. refl) (λ v. v) (λ v. v)) (
        IsEffect-trans seq
          (diff-IsEffect (length post.pre_step_levels + length post.post_step_levels)
            post.pre_step_levels post.post_step_levels post)
          (emit_book_update_top-IsEffect _))

  with_book_changes-IsEffect :
      (handle : Engine L G C → Engine L G C) (e : Engine L G C)
      → ((e : Engine L G C) → Plainly seq e (handle e))
      → Follows e (with_book_changes handle e)
  unfolding capture_pre_step_levels
  with_book_changes-IsEffect handle e h =
      let pre = capture_pre_step_levels e in
      IsEffect-trans seq (silent seq e pre refl refl (λ w. absurd w) (λ v. v) (λ v. v))
        (IsEffect-trans seq (of_plain (h pre)) (tail-IsEffect handle e))

  handle_kill_switch-IsEffect :
      (msg : KillSwitchSet) (e : Engine L G C) → Follows e (handle_kill_switch msg e)
  unfolding handle_kill_switch set_kill_switch account_of
  handle_kill_switch-IsEffect msg e = silent seq e _ refl refl (λ w. refl) (λ v. v) (λ v. v)

  handle_snapshot_request-IsEffect :
      (msg : SnapshotRequest) (t : RecvTs) (e : Engine L G C)
      → Follows e (handle_snapshot_request msg t e)
  unfolding handle_snapshot_request engine_seq_of
  handle_snapshot_request-IsEffect msg t e = emit-IsEffect seq _ e (λ n t. refl) (λ n t. tt)

  module _ (listed : (l : L) → is_some (pl.snapshot_orders l) ≡ true) where
    pub dispatch-IsEffect :
        (inbound : Inbound) (t : RecvTs) (e : Engine L G C)
        → HasLots inbound
        → Follows e (dispatch inbound t e)
    unfolding dispatch
    dispatch-IsEffect (new_order msg) t e lots =
        with_book_changes-IsEffect _ e λ e. handle_new_order-IsEffect seq listed msg t e lots
    dispatch-IsEffect (cancel_order msg) t e lots =
        with_book_changes-IsEffect _ e λ e. handle_cancel_order-IsEffect seq listed msg t e
    dispatch-IsEffect (cancel_replace msg) t e lots =
        with_book_changes-IsEffect _ e λ e. handle_cancel_replace-IsEffect seq listed msg t e lots
    dispatch-IsEffect (mass_cancel msg) t e lots =
        with_book_changes-IsEffect _ e λ e. handle_mass_cancel-IsEffect seq listed msg t e
    dispatch-IsEffect (kill_switch_set msg) t e lots = handle_kill_switch-IsEffect msg e
    dispatch-IsEffect (snapshot_request msg) t e lots = handle_snapshot_request-IsEffect msg t e

    step-IsEffect :
        (inbound : Inbound) (e : Engine L G C) → HasLots inbound → Follows e (step inbound e)
    unfolding step
    step-IsEffect inbound e lots =
        IsEffect-trans seq (silent seq e _ refl refl (λ w. refl) (λ v. v) (λ v. v))
          (dispatch-IsEffect inbound _ _ lots)

    run-IsEffect : (ms : List Inbound) (e : Engine L G C) → All HasLots ms → Follows e (run ms e)
    unfolding run
    run-IsEffect [] e lots = IsEffect-refl seq e
    run-IsEffect (m ∷ ms) e lots =
        IsEffect-trans seq (step-IsEffect m e lots.0) (run-IsEffect ms (step m e) lots.1)

    -- Whatever commands arrive, orders and replaces of at least one lot each, the engine only
    -- appends to its sink, and the messages it appends bear the consecutive sequence numbers from
    -- the generator's next one on, of whatever kind they are. The listing of a level must not fail.
    pub run-IsNumbered :
        (ms : List Inbound) (e : Engine L G C)
        → All HasLots ms
        → (new : List Outbound) × ((run ms e).sink ≡ e.sink ++ new)
          × IsNumbered (seq.upcoming e.ids) new
          × (seq.upcoming (run ms e).ids ≡ seq.upcoming e.ids + length new)
    run-IsNumbered ms e lots =
        let x = run-IsEffect ms e lots in (x.messages, x.sent, x.numbered, x.upcoming)
