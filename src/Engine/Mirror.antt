-- ===== src/Engine/Mirror.antt =====
-- A subscriber's copy of the levels, kept by the level deltas of crates/engine/src/engine.rs.
pub mod Merging
pub mod Diffing
pub mod Capturing
pub mod Following
use hft_clob_core.Prelude.{
  ℕ, ◌≡◌, refl, Bool, true, false, ◌||◌, List, [], ◌∷◌, ◌++◌, get_or, if◌then◌else◌, All,
}
use hft_clob_core.Domain.Side.{Side}
use hft_clob_core.Domain.Price.{Price}
use hft_clob_core.Matching.View.{same_place}
use hft_clob_core.Wire.Outbound.{
  Outbound, exec_report, trade_print, book_update_top, book_update_l2_delta, snapshot_response,
}
use hft_clob_core.Engine.Deltas.{StepLevels}
use hft_clob_core.Engine.Effects.{IsPlain}

-- The lots of each level.
abbrev pub Mirror : Type 0
Mirror = Side → Price → ℕ

-- A delta replaces the lots of its level, or removes the level; no other message counts.
unfoldable pub apply : Outbound → Mirror → Mirror
apply (exec_report m) mirror = mirror
apply (trade_print m) mirror = mirror
apply (book_update_top m) mirror = mirror
apply (book_update_l2_delta d) mirror =
    λ s p. if same_place d.side d.price s p then get_or d.new_qty 0 else mirror s p
apply (snapshot_response m) mirror = mirror

unfoldable pub apply_all : List Outbound → Mirror → Mirror
apply_all [] mirror = mirror
apply_all (m ∷ ms) mirror = apply_all ms (apply m mirror)

-- The lots that captured levels list for a place.
unfoldable pub lookup : StepLevels → Mirror
lookup [] s p = 0
lookup ((s', p', n) ∷ lv) s p = if same_place s' p' s p then n else lookup lv s p

unfoldable pub has_level : StepLevels → Side → Price → Bool
has_level [] s p = false
has_level ((s', p', n) ∷ lv) s p = same_place s' p' s p || has_level lv s p

pub apply_all-append :
    (xs ys : List Outbound) (mirror : Mirror)
    → apply_all (xs ++ ys) mirror ≡ apply_all ys (apply_all xs mirror)
unfolding apply_all
apply_all-append [] ys mirror = refl
apply_all-append (x ∷ xs) ys mirror = apply_all-append xs ys (apply x mirror)

pub apply_all-plain :
    (xs : List Outbound) (mirror : Mirror) → All IsPlain xs → apply_all xs mirror ≡ mirror
unfolding apply_all apply
apply_all-plain [] mirror h = refl
apply_all-plain (exec_report m ∷ xs) mirror h = apply_all-plain xs mirror h.1
apply_all-plain (trade_print m ∷ xs) mirror h = apply_all-plain xs mirror h.1
apply_all-plain (book_update_top m ∷ xs) mirror h = apply_all-plain xs mirror h.1
apply_all-plain (book_update_l2_delta d ∷ xs) mirror h = absurd (true-ne-false h.0)
  where
    true-ne-false : (true ≡ false) → ⊥
    true-ne-false h = cc
apply_all-plain (snapshot_response m ∷ xs) mirror h = apply_all-plain xs mirror h.1
