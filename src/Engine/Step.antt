-- ===== src/Engine/Step.antt =====
-- `Engine::step` of crates/engine/src/engine.rs: one inbound command, and a sequence of them.
use hft_clob_core.Prelude.{List, [], ◌∷◌}
use hft_clob_core.Matching.Types.{IdGenerator}
use hft_clob_core.Matching.Level.{PriceLevel}
use hft_clob_core.Wire.Inbound.{
  Inbound, new_order, cancel_order, cancel_replace, mass_cancel, kill_switch_set, snapshot_request,
}
use hft_clob_core.Wire.Outbound.{RecvTs}
use hft_clob_core.Engine.{Engine, Clock}
use hft_clob_core.Engine.Reports.{emit_book_update_top}
use hft_clob_core.Engine.Entry.{handle_new_order}
use hft_clob_core.Engine.Changes.{
  handle_cancel_order, handle_cancel_replace, handle_mass_cancel, handle_kill_switch,
  handle_snapshot_request,
}
use hft_clob_core.Engine.Deltas.{capture_pre_step_levels, capture_post_step_levels, emit_l2_deltas}

module _ {L G C : Type 0} ⦃pl : PriceLevel L⦄ ⦃gen : IdGenerator G⦄ ⦃clk : Clock C⦄ where
  -- The commands that may change the book: its levels are captured before and after the handler.
  unfoldable pub with_book_changes : (Engine L G C → Engine L G C) → Engine L G C → Engine L G C
  with_book_changes handle e =
      emit_book_update_top
        (emit_l2_deltas (capture_post_step_levels (handle (capture_pre_step_levels e))))

  unfoldable pub dispatch : Inbound → RecvTs → Engine L G C → Engine L G C
  dispatch (new_order msg) recv_ts e = with_book_changes (handle_new_order msg recv_ts) e
  dispatch (cancel_order msg) recv_ts e = with_book_changes (handle_cancel_order msg recv_ts) e
  dispatch (cancel_replace msg) recv_ts e = with_book_changes (handle_cancel_replace msg recv_ts) e
  dispatch (mass_cancel msg) recv_ts e = with_book_changes (handle_mass_cancel msg recv_ts) e
  dispatch (kill_switch_set msg) recv_ts e = handle_kill_switch msg e
  dispatch (snapshot_request msg) recv_ts e = handle_snapshot_request msg recv_ts e

  unfoldable pub step : Inbound → Engine L G C → Engine L G C
  step inbound e =
      let (recv_ts, clock') = clk.now e.clock in
      dispatch inbound recv_ts (record e { clock = clock' })

  -- Commands one after the other, as the single writer takes them.
  unfoldable pub run : List Inbound → Engine L G C → Engine L G C
  run [] e = e
  run (inbound ∷ rest) e = run rest (step inbound e)
