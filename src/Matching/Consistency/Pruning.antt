-- ===== src/Matching/Consistency/Pruning.antt =====
-- Pruning an empty level, and reducing an order in its place.
use hft_clob_core.Prelude.{◌≡◌, refl, inl, inr, false, Option-cases, arith}
use hft_clob_core.Collections.BTreeMap
use hft_clob_core.Domain.Side.{Side, bid, ask}
use hft_clob_core.Domain.Price.{Price}
use hft_clob_core.Domain.OrderId.{OrderId}
use hft_clob_core.Matching.Level
use hft_clob_core.Matching.Level.{PriceLevel, IsPriceLevel}
use hft_clob_core.Matching.Book.{Book, level_at, prune_level}
use hft_clob_core.Matching.Resting.{cancel_in_level}
use hft_clob_core.Matching.View.{
  same_place, queue_at-prune_level, level_at-put_level, level_at-remove_level, level_at-same_place,
  level_at-drop_from_indices,
}
use hft_clob_core.Matching.Consistency.{IsConsistent, IsPruned, IsPrunedBut}
use hft_clob_core.Matching.Consistency.Removing.{take_off}

module _ {L : Type 0} ⦃pl : PriceLevel L⦄ ⦃law : IsPriceLevel pl⦄ where
  prune_level-tables :
      (s : Side) (p : Price) (b : Book L)
      → ((prune_level s p b).index ≡ b.index)
        × ((prune_level s p b).by_account ≡ b.by_account)
        × ((prune_level s p b).seq ≡ b.seq)
  unfolding prune_level
  prune_level-tables bid p b = ground arith
  prune_level-tables ask p b = ground arith

  prune_level-IsAscending :
      (s : Side) (p : Price) (b : Book L)
      → BTreeMap.IsAscending b.bids
      → BTreeMap.IsAscending b.asks
      → BTreeMap.IsAscending (prune_level s p b).bids
        × BTreeMap.IsAscending (prune_level s p b).asks
  unfolding prune_level
  prune_level-IsAscending bid p b h k = ground (arith, BTreeMap.remove-IsAscending p b.bids h)
  prune_level-IsAscending ask p b h k = ground (arith, BTreeMap.remove-IsAscending p b.asks k)

  pub prune_level-index : (s : Side) (p : Price) (b : Book L) → (prune_level s p b).index ≡ b.index
  prune_level-index s p b = (prune_level-tables s p b).0

  -- Pruning keeps the invariant.
  pub prune_level-IsConsistent :
      (s : Side) (p : Price) (b : Book L) → IsConsistent b → IsConsistent (prune_level s p b)
  prune_level-IsConsistent s p b c =
      let ascend = prune_level-IsAscending s p b c.bids_ascend c.asks_ascend in
      let tables = prune_level-tables s p b in
      record {
        bids_ascend = ascend.0;
        asks_ascend = ascend.1;
        queues = λ s' p'. rw (queue_at-prune_level s' p' s p b, tables.2) (c.queues s' p');
        located = λ s' p' i. rw (queue_at-prune_level s' p' s p b, tables.0) (c.located s' p' i);
        owned = λ a i. rw (tables.0, tables.1) (c.owned a i);
        account_sets = λ a. rw tables.1 (c.account_sets a);
      }

  -- ... and leaves no empty level where only the level pruned could be empty.
  pub prune_level-IsPruned :
      (s : Side) (p : Price) (b : Book L) → IsPrunedBut s p b → IsPruned (prune_level s p b)
  unfolding prune_level
  prune_level-IsPruned s p b h s' p' = elim (Option-cases (level_at s p b)) [
    | inl e ↦ rw (e, prune_level) (ground (arith, level_at-same_place s s' p p' b, h s' p'))
    | inr (l, e) ↦
        rw (e, prune_level)
          (ground (
            arith,
            law.order_count_lem l,
            level_at-remove_level s' p' s p b,
            level_at-same_place s s' p p' b,
            h s' p',
          ))
  ]

  level_at-cancel_in_level :
      (s' : Side) (p' : Price) (s : Side) (p : Price) (i : OrderId) (b : Book L)
      → same_place s p s' p' ≡ false
      → level_at s' p' (cancel_in_level s p i b) ≡ level_at s' p' b
  unfolding cancel_in_level
  level_at-cancel_in_level s' p' s p i b h = elim (Option-cases (level_at s p b)) [
    | inl e ↦ rw (e, cancel_in_level) refl
    | inr (l, e) ↦
        rw (e, cancel_in_level)
          (ground (arith, level_at-put_level s' p' s p (pl.update_order l (Level.cancel i)) b))
  ]

  pub take_off-IsPrunedBut :
      (s : Side) (p : Price) (i : OrderId) (b : Book L)
      → IsPrunedBut s p b
      → IsPrunedBut s p (take_off s p i b)
  take_off-IsPrunedBut s p i b h s' p' e =
      rw
        (
          level_at-drop_from_indices s' p' i (cancel_in_level s p i b),
          level_at-cancel_in_level s' p' s p i b e,
        )
        (h s' p' e)
