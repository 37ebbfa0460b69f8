-- ===== src/Matching/Walk/LevelSweep.antt =====
-- The `'level` loop does to one level what `sweep_queue` does to its orders.
use hft_clob_core.Prelude.{
  ◌≤◌, ◌≡◌, refl, subst, inl, inr, Bool, true, false, List, [], ◌∷◌, some, Bool-cases, ltb, ◌==◌,
  arith,
}
use hft_clob_core.Domain.Side
use hft_clob_core.Domain.Side.{Side, bid, ask}
use hft_clob_core.Domain.Price.{Price}
use hft_clob_core.Domain.OrderId.{OrderId}
use hft_clob_core.Matching.Types.{OrderMeta, AggressiveOrder, IdGenerator}
use hft_clob_core.Matching.Queue.{IsQueue, PlOrder}
use hft_clob_core.Matching.Level.{PriceLevel, IsPriceLevel}
use hft_clob_core.Matching.View.{queue_at}
use hft_clob_core.Matching.Sweep.{sweep_queue}
use hft_clob_core.Matching.Walk.{Walk, fill_maker, stp_cancel, walk_level}
use hft_clob_core.Matching.Walk.Steps.{
  IsRunning, IsSwept, full_step, part_step, fill_maker_full, fill_maker_part, walk_level_done,
  head_meta, head_level, full_step-IsRunning,
}
use hft_clob_core.Matching.Walk.Sweeping.{IsSwept-full, IsSwept-end, IsSwept-part, IsSwept-stp}
use hft_clob_core.Matching.Sweep.Equations.{
  sweep_queue_own, sweep_queue_part, sweep_queue_full, sweep_queue_done, sweep_queue_nil,
}

module _ {L G : Type 0} ⦃pl : PriceLevel L⦄ ⦃law : IsPriceLevel pl⦄ ⦃gen : IdGenerator G⦄ where
  module _ (taker : AggressiveOrder) (own : OrderId → Bool) (p : Price) where
    -- The four ways a round of the loop can go.
    walk_level_stp :
        (o : PlOrder) (os : List PlOrder) (m : OrderMeta) (w : Walk L G)
        → (w.remaining == 0) ≡ false
        → w.session.book.index o.id ≡ some m
        → (m.account_id == taker.account_id) ≡ true
        → walk_level taker p (o ∷ os) w ≡ stp_cancel taker p o m w
    unfolding walk_level
    walk_level_stp o os m w z known mine = rw (z, known, walk_level) (rw mine)

    walk_level_fill :
        (o : PlOrder) (os : List PlOrder) (m : OrderMeta) (w : Walk L G)
        → (w.remaining == 0) ≡ false
        → w.session.book.index o.id ≡ some m
        → (m.account_id == taker.account_id) ≡ false
        → 1 ≤ o.quantity
        → walk_level taker p (o ∷ os) w ≡ walk_level taker p os (fill_maker taker p o w)
    unfolding walk_level
    walk_level_fill o os m w z known other h =
        let some_lots : (o.quantity == 0) ≡ false = ground arith in
        rw (z, known, walk_level) (rw (other, some_lots))

    walk_level_nil : (w : Walk L G) → walk_level taker p [] w ≡ w
    unfolding walk_level
    walk_level_nil w = refl

    -- The loop over the orders of a level sweeps them.
    pub walk_level-IsSwept :
        (os : List PlOrder) (w : Walk L G)
        → IsRunning taker own p w
        → queue_at (Side.opposite taker.side) p w.session.book ≡ os
        → IsSwept taker own p w (walk_level taker p os w) (sweep_queue own p os w.remaining)
    walk_level-IsSwept [] w v e =
        rw (walk_level_nil w, sweep_queue_nil own p w.remaining) (IsSwept-end taker own p [] w v e)
    walk_level-IsSwept (o ∷ os) w v e = elim (Bool-cases (w.remaining == 0)) [
      | inl z ↦
          rw
            (
              walk_level_done taker own p (o ∷ os) w (ground arith),
              sweep_queue_done own p o os w.remaining z,
            )
            (IsSwept-end taker own p (o ∷ os) w v e)
      | inr z ↦
          let (m, known, es, ep) = head_meta taker own p o os w v.consistent e in
          let valid : IsQueue w.session.book.seq (o ∷ os) =
            subst (IsQueue w.session.book.seq) e (v.consistent.queues _ p) in
          elim (Bool-cases (m.account_id == taker.account_id)) [
            | inl mine ↦
                rw
                  (
                    walk_level_stp o os m w z known mine,
                    sweep_queue_own own p o os w.remaining z (ground (arith, v.owns o.id m)),
                  )
                  (IsSwept-stp taker own p o os m w v e known (ground arith) es ep)
            | inr other ↦
                rw (walk_level_fill o os m w z known other valid.0)
                  (elim (Bool-cases (ltb w.remaining o.quantity)) [
                    | inl less ↦
                        let (l, there, q) = head_level taker own p o os w e in
                        rw
                          (
                            fill_maker_part taker own p o l w (ground arith) there,
                            walk_level_done taker own p os (part_step taker own p o l w) refl,
                            sweep_queue_part own p o os w.remaining z
                                (ground (arith, v.owns o.id m)) less,
                          )
                          (IsSwept-part taker own p o os l w v e there q (ground arith))
                    | inr more ↦
                        let (running, rest) = full_step-IsRunning taker own p o os w v e in
                        rw
                          (
                            fill_maker_full taker own p o w (ground arith),
                            sweep_queue_full own p o os w.remaining z
                                (ground (arith, v.owns o.id m)) more,
                          )
                          (IsSwept-full taker own p o w _ _
                            (walk_level-IsSwept os (full_step taker own p o w) running rest))
                  ])
          ]
    ]
