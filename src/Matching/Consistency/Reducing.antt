-- ===== src/Matching/Consistency/Reducing.antt =====
-- Reducing the quantity of an order in its place.
use hft_clob_core.Prelude.{ℕ, ◌≤◌, ◌≡◌, refl, sym, subst, some, if◌then◌else◌, arith}
use hft_clob_core.Collections.BTreeMap
use hft_clob_core.Domain.Side.{Side, bid, ask}
use hft_clob_core.Domain.Price.{Price}
use hft_clob_core.Domain.OrderId.{OrderId}
use hft_clob_core.Matching.Queue
use hft_clob_core.Matching.Queue.{IsQueue, PlOrder}
use hft_clob_core.Matching.Level
use hft_clob_core.Matching.Level.{PriceLevel, IsPriceLevel}
use hft_clob_core.Matching.Book.{Book, level_at, put_level}
use hft_clob_core.Matching.View.{same_place, queue_at, level_at-put_level, level_at-same_place}
use hft_clob_core.Matching.Consistency.{IsConsistent, IsPruned, IsPrunedBut}

module _ {L : Type 0} ⦃pl : PriceLevel L⦄ ⦃law : IsPriceLevel pl⦄ where
  -- The book after the level `l` at a place has reduced the order `i` to `q`.
  abbrev pub reduced : Side → Price → L → OrderId → ℕ → Book L → Book L
  reduced s p l i q b = put_level s p (pl.update_order l (Level.update_quantity i q)) b

  module _ (s : Side) (p : Price) (l : L) (i q : ℕ) (o : PlOrder) (b : Book L)
      (there : level_at s p b ≡ some l) (found : Queue.find i (law.queue l) ≡ some o)
      (positive : 1 ≤ q) (less : q ≤ o.quantity) where
    pub queue_at-reduced :
        (s' : Side) (p' : Price)
        → queue_at s' p' (reduced s p l i q b) ≡ (
            if same_place s p s' p'
            then Queue.set_quantity i q (queue_at s' p' b)
            else queue_at s' p' b)
    unfolding queue_at
    queue_at-reduced s' p' = ground (
      arith,
      level_at-put_level s' p' s p (pl.update_order l (Level.update_quantity i q)) b,
      law.queue-update_quantity l i q o found positive less,
      level_at-same_place s s' p p' b,
      there,
    )

    reduced-IsAscending :
        BTreeMap.IsAscending b.bids
        → BTreeMap.IsAscending b.asks
        → BTreeMap.IsAscending (reduced s p l i q b).bids
          × BTreeMap.IsAscending (reduced s p l i q b).asks
    reduced-IsAscending h k =
        elim s
          as (λ s.
            BTreeMap.IsAscending (reduced s p l i q b).bids
            × BTreeMap.IsAscending (reduced s p l i q b).asks) [
              | bid ↦ (BTreeMap.insert-IsAscending p _ b.bids h, k)
              | ask ↦ (h, BTreeMap.insert-IsAscending p _ b.asks k)
            ]

    pub reduced-tables :
        ((reduced s p l i q b).index ≡ b.index)
        × ((reduced s p l i q b).by_account ≡ b.by_account)
        × ((reduced s p l i q b).seq ≡ b.seq)
    reduced-tables =
        elim s
          as (λ s.
            ((reduced s p l i q b).index ≡ b.index)
            × ((reduced s p l i q b).by_account ≡ b.by_account)
            × ((reduced s p l i q b).seq ≡ b.seq)) [
              | bid ↦ (refl, refl, refl)
              | ask ↦ (refl, refl, refl)
            ]

    -- An order that is reduced keeps its place, and the book its invariant.
    pub reduced-IsConsistent : IsConsistent b → IsConsistent (reduced s p l i q b)
    reduced-IsConsistent c =
        let ascend = reduced-IsAscending c.bids_ascend c.asks_ascend in
        record {
          bids_ascend = ascend.0;
          asks_ascend = ascend.1;
          queues = λ s' p'.
              subst (λ n. IsQueue n (queue_at s' p' (reduced s p l i q b))) (sym reduced-tables.2)
                (ground (
                  arith,
                  queue_at-reduced s' p',
                  c.queues s' p',
                  Queue.set_quantity-IsQueue b.seq i q (queue_at s' p' b) positive,
                ));
          located = λ s' p' j. ground (
            arith,
            queue_at-reduced s' p',
            reduced-tables,
            c.located s' p' j,
            Queue.has-set_quantity j i q (queue_at s' p' b),
          );
          owned = λ a j. ground (arith, reduced-tables, c.owned a j);
          account_sets = λ a. ground (arith, reduced-tables, c.account_sets a);
        }

    pub reduced-IsPruned : IsPruned b → IsPruned (reduced s p l i q b)
    unfolding queue_at
    reduced-IsPruned h s' p' = ground (
      arith,
      level_at-put_level s' p' s p (pl.update_order l (Level.update_quantity i q)) b,
      law.queue-update_quantity l i q o found positive less,
      Queue.length-set_quantity i q (law.queue l),
      level_at-same_place s s' p p' b,
      there,
      h s' p',
    )

    pub reduced-IsPrunedBut : IsPrunedBut s p b → IsPrunedBut s p (reduced s p l i q b)
    reduced-IsPrunedBut h s' p' e =
        rw (level_at-put_level s' p' s p (pl.update_order l (Level.update_quantity i q)) b, e)
          (h s' p' e)
