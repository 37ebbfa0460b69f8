-- ===== src/Matching/Consistency/Cancelling.antt =====
-- `Book::cancel`.
use hft_clob_core.Prelude.{◌≡◌, inl, inr, true, none, some, Option-cases, ok, err, arith}
use hft_clob_core.Domain.Side.{Side, bid, ask}
use hft_clob_core.Domain.Price.{Price}
use hft_clob_core.Domain.OrderId.{OrderId}
use hft_clob_core.Matching.Types.{OrderMeta, unknown_order_id}
use hft_clob_core.Matching.Queue
use hft_clob_core.Matching.Level.{PriceLevel, IsPriceLevel}
use hft_clob_core.Matching.Book.{Book, level_at, prune_level}
use hft_clob_core.Matching.Resting.{cancel, cancel_located, drop_from_indices, cancel_in_level}
use hft_clob_core.Matching.View.{same_place_refl, queue_at}
use hft_clob_core.Matching.Consistency.{IsConsistent, IsBook}
use hft_clob_core.Matching.Consistency.Removing.{take_off, take_off-IsConsistent}
use hft_clob_core.Matching.Consistency.Pruning.{
  prune_level-IsConsistent, prune_level-IsPruned, take_off-IsPrunedBut,
}

module _ {L : Type 0} ⦃pl : PriceLevel L⦄ ⦃law : IsPriceLevel pl⦄ where
  -- An order that the sidecar knows rests in a level.
  pub level_of_known :
      (i : OrderId) (m : OrderMeta) (b : Book L)
      → IsConsistent b
      → b.index i ≡ some m
      → (l : L) × (level_at m.side m.price b ≡ some l) × (Queue.has i (law.queue l) ≡ true)
  unfolding queue_at Queue.has
  level_of_known i m b c e = elim (Option-cases (level_at m.side m.price b)) [
    | inl h ↦ absurd (ground (arith, c.located m.side m.price i, same_place_refl m.side m.price))
    | inr (l, h) ↦
        (l, h, ground (arith, c.located m.side m.price i, same_place_refl m.side m.price))
  ]

  -- Dropping from the tables and pruning commute: the source does them in either order.
  prune_level-drop_from_indices :
      (s : Side) (p : Price) (i : OrderId) (b : Book L)
      → drop_from_indices i (prune_level s p b) ≡ prune_level s p (drop_from_indices i b)
  unfolding prune_level drop_from_indices
  prune_level-drop_from_indices bid p i b = ground arith
  prune_level-drop_from_indices ask p i b = ground arith

  pub cancel_unknown :
      (i : OrderId) (b : Book L) → b.index i ≡ none → cancel i b ≡ (b, err unknown_order_id)
  unfolding cancel cancel_located
  cancel_unknown i b e = ground arith

  -- A cancel of a known order takes it off and prunes its level.
  pub cancel_known :
      (i : OrderId) (m : OrderMeta) (b : Book L)
      → IsConsistent b
      → b.index i ≡ some m
      → cancel i b
        ≡ (prune_level m.side m.price (take_off m.side m.price i b), ok (m.side, m.price))
  unfolding cancel cancel_located
  cancel_known i m b c e =
      let (l, there, _) = level_of_known i m b c e in
      ground (
        arith,
        there,
        e,
        prune_level-drop_from_indices m.side m.price i (cancel_in_level m.side m.price i b),
      )

  pub take_off-IsBook :
      (i : OrderId) (m : OrderMeta) (b : Book L)
      → IsBook b
      → b.index i ≡ some m
      → IsBook (prune_level m.side m.price (take_off m.side m.price i b))
  take_off-IsBook i m b v e = record {
    consistent =
        prune_level-IsConsistent m.side m.price _ (take_off-IsConsistent i m b e v.consistent);
    pruned =
        prune_level-IsPruned m.side m.price _
          (take_off-IsPrunedBut m.side m.price i b (λ s' p' _. v.pruned s' p'));
  }

  -- A cancel keeps a well-formed book well formed, whether the order is on it or not.
  pub cancel-IsBook : (i : OrderId) (b : Book L) → IsBook b → IsBook (cancel i b).0
  cancel-IsBook i b v = elim (Option-cases (b.index i)) [
    | inl e ↦ rw (cancel_unknown i b e) v
    | inr (m, e) ↦ rw (cancel_known i m b v.consistent e) (take_off-IsBook i m b v e)
  ]
