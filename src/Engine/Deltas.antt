-- ===== src/Engine/Deltas.antt =====
-- The level deltas of crates/engine/src/engine.rs: `capture_levels_into` and `emit_l2_deltas`.
use hft_clob_core.Prelude.{
  ℕ, zero, suc, ◌+◌, Bool, ◌&&◌, ◌||◌, List, [], ◌∷◌, ◌++◌, map, reverse, length, ltb, ◌==◌,
  if◌then◌else◌,
}
use hft_clob_core.Domain.Side
use hft_clob_core.Domain.Side.{Side, bid, ask}
use hft_clob_core.Domain.Price.{Price}
use hft_clob_core.Matching.Types.{IdGenerator}
use hft_clob_core.Matching.Level.{PriceLevel}
use hft_clob_core.Matching.Book.{Book, bid_levels, ask_levels}
use hft_clob_core.Engine.{Engine, Clock}
use hft_clob_core.Engine.Reports.{emit_l2_delta}

-- The levels of a step, by side and ascending price.
abbrev pub StepLevels : Type 0
StepLevels = List (Side × Price × ℕ)

unfoldable pub tagged : Side → Price × ℕ → Side × Price × ℕ
tagged s (p, n) = (s, p, n)

-- The order of the keys `(side as u8, price)`.
unfoldable pub same_key : Side → Price → Side → Price → Bool
same_key s p s' p' = Side.as_u8 s == Side.as_u8 s' && p == p'

unfoldable pub key_before : Side → Price → Side → Price → Bool
key_before s p s' p' =
    ltb (Side.as_u8 s) (Side.as_u8 s') || (Side.as_u8 s == Side.as_u8 s' && ltb p p')

module _ {L : Type 0} ⦃pl : PriceLevel L⦄ where
  -- The bids are listed best first, and turned to ascending prices.
  unfoldable pub capture_levels : Book L → StepLevels
  capture_levels b = reverse (map (tagged bid) (bid_levels b)) ++ map (tagged ask) (ask_levels b)

module _ {L G C : Type 0} ⦃pl : PriceLevel L⦄ where
  unfoldable pub capture_pre_step_levels : Engine L G C → Engine L G C
  capture_pre_step_levels e = record e { pre_step_levels = capture_levels e.book }

  unfoldable pub capture_post_step_levels : Engine L G C → Engine L G C
  capture_post_step_levels e = record e { post_step_levels = capture_levels e.book }

module _ {L G C : Type 0} ⦃gen : IdGenerator G⦄ ⦃clk : Clock C⦄ where
  -- One round of the merge: what is left of the two lists, and the engine.
  unfoldable pub diff_round :
      StepLevels → StepLevels → Engine L G C → StepLevels × StepLevels × Engine L G C
  diff_round [] [] e = ([], [], e)
  diff_round ((s, p, n) ∷ pre) [] e = (pre, [], emit_l2_delta s p 0 e)
  diff_round [] ((s, p, n) ∷ post) e = ([], post, emit_l2_delta s p n e)
  diff_round ((s, p, n) ∷ pre) ((s', p', n') ∷ post) e =
      if same_key s p s' p'
      then (pre, post, if n == n' then e else emit_l2_delta s' p' n' e)
      else if key_before s p s' p'
      then (pre, (s', p', n') ∷ post, emit_l2_delta s p 0 e)
      else ((s, p, n) ∷ pre, post, emit_l2_delta s' p' n' e)

  -- Each round uses up a level of a list, so that the lengths together are fuel enough.
  unfoldable pub diff : ℕ → StepLevels → StepLevels → Engine L G C → Engine L G C
  diff zero pre post e = e
  diff (suc fuel) pre post e =
      let (pre', post', e') = diff_round pre post e in diff fuel pre' post' e'

  unfoldable pub emit_l2_deltas : Engine L G C → Engine L G C
  emit_l2_deltas e =
      diff (length e.pre_step_levels + length e.post_step_levels) e.pre_step_levels
        e.post_step_levels e
