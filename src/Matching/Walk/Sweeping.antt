-- ===== src/Matching/Walk/Sweeping.antt =====
-- Each way in which a round of the `'level` loop can go, as a step of the sweep of the level.
use hft_clob_core.Prelude.{
  ◌-◌, ◌≤◌, ◌<◌, ◌≡◌, refl, ◌∙◌, sym, subst, Bool, true, false, List, [], ◌∷◌, append-nil,
  append_assoc, none, some, arith,
}
use hft_clob_core.Domain.Side
use hft_clob_core.Domain.Side.{Side, bid, ask}
use hft_clob_core.Domain.Qty
use hft_clob_core.Domain.Price.{Price}
use hft_clob_core.Domain.OrderId.{OrderId}
use hft_clob_core.Matching.Types.{OrderMeta, AggressiveOrder, IdGenerator}
use hft_clob_core.Matching.Queue
use hft_clob_core.Matching.Queue.{IsQueue, PlOrder}
use hft_clob_core.Matching.Level.{PriceLevel, IsPriceLevel}
use hft_clob_core.Matching.Book.{level_at}
use hft_clob_core.Matching.View.{same_place_refl, queue_at, queue_at-prune_level}
use hft_clob_core.Matching.Consistency.Removing.{
  take_off, queue_at-take_off, take_off-index, take_off_at-IsConsistent,
}
use hft_clob_core.Matching.Consistency.Pruning.{
  prune_level-IsConsistent, prune_level-IsPruned, prune_level-index, take_off-IsPrunedBut,
}
use hft_clob_core.Matching.Consistency.Reducing.{
  queue_at-reduced, reduced-IsConsistent, reduced-tables, reduced-IsPrunedBut,
}
use hft_clob_core.Matching.Sweep.{Swept}
use hft_clob_core.Matching.Walk.{Walk, stp_cancel}
use hft_clob_core.Matching.Walk.Stamps.{issued, ids_after}
use hft_clob_core.Matching.Walk.Steps.{IsRunning, IsSwept, full_step, part_step}

module _ {L G : Type 0} ⦃pl : PriceLevel L⦄ ⦃law : IsPriceLevel pl⦄ ⦃gen : IdGenerator G⦄ where
  module _ (taker : AggressiveOrder) (own : OrderId → Bool) (p : Price) where
    -- A sweep of the rest continues the sweep of the head.
    pub IsSwept-full :
        (o : PlOrder) (w w' : Walk L G) (d : Swept)
        → IsSwept taker own p (full_step taker own p o w) w' d
        → IsSwept taker own p w w' (record d {
          trades = record { maker = o.id; price = p; qty = o.quantity; full = true } ∷ d.trades;
        })
    unfolding issued ids_after
    IsSwept-full o w w' d v = record {
      fills = v.fills ∙ append_assoc w.session.out_fills _ _;
      ids = v.ids;
      stp = v.stp;
      remaining = v.remaining;
      stopped = v.stopped;
      halted = v.halted;
      queue = v.queue;
      elsewhere = λ s' p' h.
          v.elsewhere s' p' h ∙ queue_at-take_off _ p o.id w.session.book s' p' ∙ rw h refl;
      consistent = v.consistent;
      pruned_but = v.pruned_but;
      pruned = v.pruned;
      kept = λ i m h.
          ground
            (arith, take_off-index (Side.opposite taker.side) p o.id w.session.book i, v.kept i m);
    }

    -- The loop ends where the taker has no lots left, or the snapshot no orders.
    pub IsSwept-end :
        (os : List PlOrder) (w : Walk L G)
        → IsRunning taker own p w
        → queue_at (Side.opposite taker.side) p w.session.book ≡ os
        → IsSwept taker own p w w
            (record { trades = []; rest = w.remaining; left = os; stopped = none })
    unfolding issued ids_after
    IsSwept-end os w v e = record {
      fills = sym (append-nil _);
      ids = refl;
      stp = sym (append-nil _);
      remaining = refl;
      stopped = v.not_stopped;
      halted = v.running;
      queue = e;
      elsewhere = λ s' p' h. refl;
      consistent = v.consistent;
      pruned_but = v.pruned_but;
      pruned = λ h. cc;
      kept = λ i m h. h;
    }

    pub IsSwept-part :
        (o : PlOrder) (os : List PlOrder) (l : L) (w : Walk L G)
        → IsRunning taker own p w
        → queue_at (Side.opposite taker.side) p w.session.book ≡ o ∷ os
        → level_at (Side.opposite taker.side) p w.session.book ≡ some l
        → law.queue l ≡ o ∷ os
        → w.remaining < o.quantity
        → IsSwept taker own p w (part_step taker own p o l w) (record {
          trades = record { maker = o.id; price = p; qty = w.remaining; full = false } ∷ [];
          rest = 0;
          left = record o { quantity = o.quantity - w.remaining } ∷ os;
          stopped = none;
        })
    unfolding issued ids_after
    IsSwept-part o os l w v e there q h =
        let found : Queue.find o.id (law.queue l) ≡ some o = rw q (Queue.find_head o os) in
        let positive : 1 ≤ o.quantity - w.remaining = omega arith in
        let less : o.quantity - w.remaining ≤ o.quantity = omega arith in
        let b = w.session.book in
        let valid : IsQueue b.seq (o ∷ os) = subst (IsQueue b.seq) e (v.consistent.queues _ p) in
        let tables =
          reduced-tables _ p l o.id (o.quantity - w.remaining) o b there found positive less in
        record {
          fills = refl;
          ids = refl;
          stp = sym (append-nil _);
          remaining = refl;
          stopped = v.not_stopped;
          halted = v.running;
          queue =
              queue_at-reduced _ p l o.id _ o b there found positive less _ p
              ∙ rw (same_place_refl (Side.opposite taker.side) p, e)
                  (Queue.set_quantity_head b.seq _ o os valid);
          elsewhere = λ s' p' x.
              queue_at-reduced _ p l o.id _ o b there found positive less s' p' ∙ rw x refl;
          consistent = reduced-IsConsistent _ p l o.id _ o b there found positive less v.consistent;
          pruned_but = reduced-IsPrunedBut _ p l o.id _ o b there found positive less v.pruned_but;
          pruned = λ x. cc;
          kept = λ i m x. ground (arith, tables);
        }

    pub IsSwept-stp :
        (o : PlOrder) (os : List PlOrder) (m : OrderMeta) (w : Walk L G)
        → IsRunning taker own p w
        → queue_at (Side.opposite taker.side) p w.session.book ≡ o ∷ os
        → w.session.book.index o.id ≡ some m
        → m.account_id ≡ taker.account_id
        → m.side ≡ Side.opposite taker.side
        → m.price ≡ p
        → IsSwept taker own p w
            (stp_cancel taker p o m w)
            (record { trades = []; rest = w.remaining; left = os; stopped = some o })
    unfolding issued ids_after stp_cancel
    IsSwept-stp o os m w v e known same es ep =
        let b = w.session.book in
        let valid : IsQueue b.seq (o ∷ os) = subst (IsQueue b.seq) e (v.consistent.queues _ p) in
        let taken = take_off_at-IsConsistent _ p o.id m b known es ep v.consistent in
        let but = take_off-IsPrunedBut _ p o.id b v.pruned_but in
        record {
          fills = sym (append-nil _);
          ids = refl;
          stp = rw (Qty.new_lots o.quantity valid.0, same, es);
          remaining = refl;
          stopped = refl;
          halted = refl;
          queue =
              queue_at-prune_level _ p _ p (take_off _ p o.id b)
              ∙ queue_at-take_off _ p o.id b _ p
              ∙ rw (same_place_refl (Side.opposite taker.side) p, e)
                  (Queue.remove_head b.seq o os valid);
          elsewhere = λ s' p' x.
              queue_at-prune_level s' p' _ p (take_off _ p o.id b)
              ∙ queue_at-take_off _ p o.id b s' p'
              ∙ rw x refl;
          consistent = prune_level-IsConsistent _ p _ taken;
          pruned_but = λ s' p' x. prune_level-IsPruned _ p _ but s' p';
          pruned = λ x. prune_level-IsPruned _ p _ but;
          kept = λ i n x. ground (
            arith,
            take_off-index (Side.opposite taker.side) p o.id b i,
            prune_level-index (Side.opposite taker.side) p
                (take_off (Side.opposite taker.side) p o.id b),
          );
        }
