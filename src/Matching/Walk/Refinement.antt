-- ===== src/Matching/Walk/Refinement.antt =====
-- `Book::match_aggressive` implements the sweep of the ladder of the other side.
use hft_clob_core.Prelude.{
  ℕ, zero, suc, ◌<◌, ◌≡◌, refl, ◌∙◌, ap, sym, subst, ◌⊎◌, inl, inr, Bool, true, List, [], ◌∷◌, ◌++◌,
  append-nil, append_assoc, none, some, Option-cases, Bool-cases, is_some, ◌==◌, arith, length,
}
use hft_clob_core.Domain.Side
use hft_clob_core.Domain.Side.{Side, bid, ask}
use hft_clob_core.Domain.Price.{Price}
use hft_clob_core.Domain.OrderId.{OrderId}
use hft_clob_core.Matching.Types.{AggressiveOrder, IdGenerator}
use hft_clob_core.Matching.Queue.{PlOrder}
use hft_clob_core.Matching.Level.{PriceLevel, IsPriceLevel}
use hft_clob_core.Matching.Ladder.{
  Represents, SidesAscend, best_of-Represents, best_of-Represents_nil, first_level,
}
use hft_clob_core.Matching.Sweep.{
  Swept, SweptLadder, Ladder, sweep_queue, sweep, unswept, after_level, keep_level,
}
use hft_clob_core.Matching.Sweep.Equations.{
  sweep_queue_rest, sweep_used, sweep_nil, sweep_limit, sweep_level, after_level-none,
  after_level-some,
}
use hft_clob_core.Matching.Walk.{Walk, halt, crosses_limit, walk_round, walk}
use hft_clob_core.Matching.Walk.Stamps.{issued-append, ids_after-append}
use hft_clob_core.Matching.Walk.Steps.{IsRunning}
use hft_clob_core.Matching.Walk.LevelSweep.{walk_level-IsSwept}
use hft_clob_core.Matching.Walk.Rounds.{
  IsReady, IsMatched, IsMatched-unswept, IsRound, finish_level-IsRound,
}
use hft_clob_core.Matching.Walk.Equations.{
  walk_halted, walk_used, walk_step, walk_round_end, walk_round_limit, walk_round_level,
  snapshot_of, lookup_queue_first,
}

module _ {L G : Type 0} ⦃pl : PriceLevel L⦄ ⦃law : IsPriceLevel pl⦄ ⦃gen : IdGenerator G⦄ where
  module _ (taker : AggressiveOrder) (own : OrderId → Bool) where
    IsRound-IsReady :
        (p : Price) (d : Swept) (lv : Ladder) (w w' : Walk L G)
        → IsReady taker own w
        → d.stopped ≡ none
        → IsRound taker own w w' p d lv
        → IsReady taker own w'
    IsRound-IsReady p d lv w w' v e r = record {
      consistent = r.consistent;
      pruned = r.pruned;
      running = rw e at r.halted;
      not_stopped = rw e at r.stopped;
      owns = λ i m h. v.owns i m (r.kept i m h);
    }

    IsMatched-stop :
        (p : Price) (d : Swept) (o : PlOrder) (lv : Ladder) (w w' : Walk L G)
        → d.stopped ≡ some o
        → IsRound taker own w w' p d lv
        → IsMatched taker own w w' (record {
          trades = d.trades;
          rest = d.rest;
          left = keep_level p d.left lv;
          stopped = some (p, o);
        })
    IsMatched-stop p d o lv w w' e r = record {
      fills = r.fills;
      ids = r.ids;
      stp = rw e at r.stp;
      remaining = r.remaining;
      stopped = rw e at r.stopped;
      represents = r.represents;
      own_side = r.own_side;
      consistent = r.consistent;
      pruned = r.pruned;
      kept = r.kept;
    }

    -- A round that nothing stopped, and the rounds after it.
    IsMatched-then :
        (p : Price) (d : Swept) (below : SweptLadder) (lv : Ladder) (w w' w'' : Walk L G)
        → d.stopped ≡ none
        → IsRound taker own w w' p d lv
        → IsMatched taker own w' w'' below
        → IsMatched taker own w w'' (record {
          trades = d.trades ++ below.trades;
          rest = below.rest;
          left = below.left;
          stopped = below.stopped;
        })
    IsMatched-then p d below lv w w' w'' e r m = record {
      fills =
          m.fills
          ∙ rw (r.fills, r.ids, issued-append taker w.session.ids d.trades below.trades)
              (append_assoc w.session.out_fills _ _);
      ids = m.ids ∙ rw (r.ids, ids_after-append w.session.ids d.trades below.trades) refl;
      stp = m.stp ∙ rw (r.stp, e, append-nil w.session.out_stp) refl;
      remaining = m.remaining;
      stopped = m.stopped;
      represents = m.represents;
      own_side = λ k. m.own_side k ∙ r.own_side k;
      consistent = m.consistent;
      pruned = m.pruned;
      kept = λ i x h. r.kept i x (m.kept i x h);
    }

  module _ (taker : AggressiveOrder) (own : OrderId → Bool)
      (listed : (l : L) → is_some (pl.snapshot_orders l) ≡ true) where
    -- One round at the first level of the ladder, which the limit allows.
    walk_round-IsRound :
        (w : Walk L G) (p : Price) (q : List PlOrder) (lv : Ladder)
        → IsReady taker own w
        → Represents (Side.opposite taker.side) w.session.book ((p, q) ∷ lv)
        → crosses_limit taker.side taker.price p ≡ true
        → IsRound taker own w (walk_round taker w) p (sweep_queue own p q w.remaining) lv
    walk_round-IsRound w p q lv v r c =
        let sides : SidesAscend w.session.book =
          (v.consistent.bids_ascend, v.consistent.asks_ascend) in
        let (l, there, holds) = first_level _ w.session.book p q lv sides v.pruned r in
        let best = best_of-Represents _ w.session.book p q lv sides v.pruned r in
        let running : IsRunning taker own p w = record {
          consistent = v.consistent;
          pruned_but = λ s k h. v.pruned s k;
          running = v.running;
          not_stopped = v.not_stopped;
          owns = v.owns;
        } in
        subst (λ x. IsRound taker own w x p (sweep_queue own p q w.remaining) lv)
          (sym (walk_round_level taker w p l q best c there (snapshot_of listed l ∙ ap some holds)))
          (finish_level-IsRound taker own p q lv w _ _ r
            (walk_level-IsSwept taker own p q w running (r.same p ∙ lookup_queue_first p q lv)))

    -- The walk after a round: it has stopped, or it goes on at the ladder below.
    after_round :
        (n : ℕ) (p : Price) (d : Swept) (lv : Ladder) (w w' : Walk L G)
        → IsReady taker own w
        → (d.stopped ≡ none → (d.rest ≡ 0) ⊎ (d.left ≡ []))
        → IsRound taker own w w' p d lv
        → (IsReady taker own w'
            → Represents (Side.opposite taker.side) w'.session.book lv
            → IsMatched taker own w'
                (walk n taker w')
                (sweep own (crosses_limit taker.side taker.price) lv w'.remaining))
        → IsMatched taker own w
            (walk n taker w')
            (after_level p d (sweep own (crosses_limit taker.side taker.price) lv d.rest) lv)
    after_round n p d lv w w' v ends r below = elim (Option-cases d.stopped) [
      | inr (o, e) ↦
          rw (walk_halted taker n w' (r.halted ∙ ap is_some e), after_level-some p d o _ lv e)
            (IsMatched-stop taker own p d o lv w w' e r)
      | inl e ↦
          let ready = IsRound-IsReady taker own p d lv w w' v e r in
          rw (after_level-none p d (sweep own _ lv d.rest) lv e) (elim (ends e) [
            | inl used ↦
                rw
                  (
                    walk_used taker n w' (r.remaining ∙ used),
                    sweep_used own (crosses_limit taker.side taker.price) lv d.rest used,
                  )
                  (IsMatched-then taker own p d (unswept (keep_level p d.left lv) d.rest) lv w w' w'
                    e r
                    (subst (λ k. IsMatched taker own w' w' (unswept (keep_level p d.left lv) k))
                      r.remaining (IsMatched-unswept taker own _ w' w'.halted ready r.represents)))
            | inr empty ↦ rw empty (
                IsMatched-then taker own p d
                  (sweep own (crosses_limit taker.side taker.price) lv d.rest) lv w w' _ e r
                  (rw (sym r.remaining) (below ready (rw empty at r.represents))))
          ])
    ]

    -- The walk at a book whose other side the ladder shows is the sweep of the ladder, on any fuel
    -- above the number of levels.
    pub walk-IsMatched :
        (n : ℕ) (lv : Ladder) (w : Walk L G)
        → length lv < n
        → IsReady taker own w
        → Represents (Side.opposite taker.side) w.session.book lv
        → IsMatched taker own w
            (walk n taker w)
            (sweep own (crosses_limit taker.side taker.price) lv w.remaining)
    walk-IsMatched zero lv w h v r = absurd (omega arith)
    walk-IsMatched (suc n) [] w h v r = elim (Bool-cases (w.remaining == 0)) [
      | inl z ↦
          rw
            (
              walk_used taker (suc n) w (ground arith),
              sweep_nil own (crosses_limit taker.side taker.price) w.remaining,
            )
            (IsMatched-unswept taker own [] w w.halted v r)
      | inr z ↦
          let sides : SidesAscend w.session.book =
            (v.consistent.bids_ascend, v.consistent.asks_ascend) in
          rw
            (
              walk_step taker n w v.running z,
              walk_round_end taker w (best_of-Represents_nil _ w.session.book sides v.pruned r),
              walk_halted taker n (halt w) refl,
              sweep_nil own (crosses_limit taker.side taker.price) w.remaining,
            )
            (IsMatched-unswept taker own [] w true v r)
    ]
    walk-IsMatched (suc n) ((p, q) ∷ lv) w h v r = elim (Bool-cases (w.remaining == 0)) [
      | inl z ↦
          rw
            (
              walk_used taker (suc n) w (ground arith),
              sweep_used own (crosses_limit taker.side taker.price) ((p, q) ∷ lv) w.remaining
                  (ground arith),
            )
            (IsMatched-unswept taker own ((p, q) ∷ lv) w w.halted v r)
      | inr z ↦ elim (Bool-cases (crosses_limit taker.side taker.price p)) [
        | inl c ↦
            rw
              (
                walk_step taker n w v.running z,
                sweep_level own (crosses_limit taker.side taker.price) p q lv w.remaining z c,
              )
              (after_round n p _ lv w _ v (sweep_queue_rest own p q w.remaining)
                (walk_round-IsRound w p q lv v r c)
                (λ v' r'. walk-IsMatched n lv (walk_round taker w) (omega arith) v' r'))
        | inr c ↦
            let sides : SidesAscend w.session.book =
              (v.consistent.bids_ascend, v.consistent.asks_ascend) in
            rw
              (
                walk_step taker n w v.running z,
                walk_round_limit taker w p
                    (best_of-Represents _ w.session.book p q lv sides v.pruned r) c,
                walk_halted taker n (halt w) refl,
                sweep_limit own (crosses_limit taker.side taker.price) p q lv w.remaining c,
              )
              (IsMatched-unswept taker own ((p, q) ∷ lv) w true v r)
      ]
    ]
