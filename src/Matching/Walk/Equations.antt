-- ===== src/Matching/Walk/Equations.antt =====
-- The `'walk` loop, one equation for each way a round can go.
use hft_clob_core.Prelude.{
  ℕ, zero, suc, ◌≡◌, refl, ◌∙◌, ap, inl, inr, true, false, List, ◌∷◌, none, some, Option-cases,
  is_some, ◌==◌, arith,
}
use hft_clob_core.Domain.Side
use hft_clob_core.Domain.Side.{Side, bid, ask}
use hft_clob_core.Domain.Price.{Price}
use hft_clob_core.Matching.Types.{AggressiveOrder, IdGenerator}
use hft_clob_core.Matching.Queue.{PlOrder}
use hft_clob_core.Matching.Level.{PriceLevel, IsPriceLevel}
use hft_clob_core.Matching.Book.{level_at, best_of}
use hft_clob_core.Matching.Ladder.{lookup_queue}
use hft_clob_core.Matching.Sweep.{Ladder}
use hft_clob_core.Matching.Walk.{
  Walk, halt, crosses_limit, walk_level, finish_level, enter_level, walk_round, walk,
}

pub lookup_queue_first :
    (p : Price) (q : List PlOrder) (lv : Ladder) → lookup_queue p ((p, q) ∷ lv) ≡ q
unfolding lookup_queue
lookup_queue_first p q lv = ground arith

module _ {L : Type 0} ⦃pl : PriceLevel L⦄ ⦃law : IsPriceLevel pl⦄ where
  -- A listing that succeeds lists the queue.
  pub snapshot_of :
      ((l : L) → is_some (pl.snapshot_orders l) ≡ true)
      → (l : L) → pl.snapshot_orders l ≡ some (law.queue l)
  snapshot_of listed l = elim (Option-cases (pl.snapshot_orders l)) [
    | inl e ↦ absurd (ground (arith, listed l))
    | inr (os, e) ↦ e ∙ ap some (law.snapshot_orders_lem l os e)
  ]

module _ {L G : Type 0} ⦃pl : PriceLevel L⦄ ⦃law : IsPriceLevel pl⦄ ⦃gen : IdGenerator G⦄ where
  module _ (taker : AggressiveOrder) where
    pub walk_halted : (n : ℕ) (w : Walk L G) → w.halted ≡ true → walk n taker w ≡ w
    unfolding walk
    walk_halted zero w h = refl
    walk_halted (suc n) w h = rw h refl

    pub walk_used : (n : ℕ) (w : Walk L G) → w.remaining ≡ 0 → walk n taker w ≡ w
    unfolding walk
    walk_used zero w h = refl
    walk_used (suc n) w h = ground arith

    pub walk_step :
        (n : ℕ) (w : Walk L G)
        → w.halted ≡ false
        → (w.remaining == 0) ≡ false
        → walk (suc n) taker w ≡ walk n taker (walk_round taker w)
    unfolding walk
    walk_step n w h z = rw (h, z) refl

    pub walk_round_end :
        (w : Walk L G)
        → best_of (Side.opposite taker.side) w.session.book ≡ none
        → walk_round taker w ≡ halt w
    unfolding walk_round
    walk_round_end w h = rw (h, walk_round) refl

    pub walk_round_limit :
        (w : Walk L G) (p : Price)
        → best_of (Side.opposite taker.side) w.session.book ≡ some p
        → crosses_limit taker.side taker.price p ≡ false
        → walk_round taker w ≡ halt w
    unfolding walk_round
    walk_round_limit w p h c = rw (h, walk_round) (rw c refl)

    pub walk_round_level :
        (w : Walk L G) (p : Price) (l : L) (q : List PlOrder)
        → best_of (Side.opposite taker.side) w.session.book ≡ some p
        → crosses_limit taker.side taker.price p ≡ true
        → level_at (Side.opposite taker.side) p w.session.book ≡ some l
        → pl.snapshot_orders l ≡ some q
        → walk_round taker w ≡ finish_level (Side.opposite taker.side) p (walk_level taker p q w)
    unfolding walk_round enter_level
    walk_round_level w p l q h c e s = rw (h, walk_round) (rw c (rw (e, enter_level) (rw s refl)))
