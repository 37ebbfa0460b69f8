-- ===== src/Matching/Consistency/Leaving.antt =====
-- What `Book::cancel` does to the queues and to the sidecar, and how it undoes `Book::add_resting`.
use hft_clob_core.Prelude.{
  ℕ, Bool, List, ◌+◌, ◌≡◌, refl, ◌∙◌, ap, inl, inr, true, false, none, some, Option-cases, ok,
  arith, ◌==◌, if◌then◌else◌, ◌++◌, [], ◌∷◌, ◌≤◌,
}
use hft_clob_core.Domain.Side.{Side}
use hft_clob_core.Domain.Price.{Price}
use hft_clob_core.Domain.OrderId.{OrderId}
use hft_clob_core.Matching.Types.{OrderMeta, RestingOrder}
use hft_clob_core.Matching.Queue
use hft_clob_core.Matching.Queue.{PlOrder}
use hft_clob_core.Matching.Level.{PriceLevel, IsPriceLevel}
use hft_clob_core.Matching.Book.{Book}
use hft_clob_core.Matching.Resting.{cancel, add_resting, meta_of, pl_order}
use hft_clob_core.Matching.View.{same_place, queue_at, queue_at-prune_level}
use hft_clob_core.Matching.Consistency.{IsBook}
use hft_clob_core.Matching.Consistency.Removing.{take_off, take_off-index, queue_at-take_off}
use hft_clob_core.Matching.Consistency.Pruning.{prune_level-index}
use hft_clob_core.Matching.Consistency.Cancelling.{cancel_known, cancel_unknown}
use hft_clob_core.Matching.Consistency.Adding.{add_resting-IsBook, add_resting_accepted}

-- A queue at which an order has arrived, or another one, once the order has been removed.
restored :
    (here : Bool) (o : RestingOrder) (seq : ℕ) (q q' : List PlOrder)
    → Queue.has o.order_id q ≡ false
    → q' ≡ (if here then q ++ pl_order o (seq + 1) ∷ [] else q)
    → (if here then Queue.remove o.order_id q' else q') ≡ q
unfolding pl_order
restored true o seq q q' h e = ap (Queue.remove o.order_id) e ∙ Queue.remove-append_one _ q h
restored false o seq q q' h e = e

module _ {L : Type 0} ⦃pl : PriceLevel L⦄ ⦃law : IsPriceLevel pl⦄ where
  -- On a well-formed book, cancelling an order that the sidecar knows succeeds with its side and
  -- price, removes it from the queue of its place and from no other, and removes its sidecar entry
  -- and no other.
  pub cancel_lem :
      (i : OrderId) (m : OrderMeta) (b : Book L)
      → IsBook b
      → b.index i ≡ some m
      → ((cancel i b).1 ≡ ok (m.side, m.price))
        × ((s : Side) (p : Price)
            → queue_at s p (cancel i b).0 ≡ (
                if same_place m.side m.price s p
                then Queue.remove i (queue_at s p b)
                else queue_at s p b))
        × ((j : OrderId) → (cancel i b).0.index j ≡ (if j == i then none else b.index j))
  cancel_lem i m b v e = rw (cancel_known i m b v.consistent e) (
    refl,
    λ s p.
        queue_at-prune_level s p m.side m.price (take_off m.side m.price i b)
        ∙ queue_at-take_off m.side m.price i b s p,
    λ j.
        ap (λ t. t j) (prune_level-index m.side m.price (take_off m.side m.price i b))
        ∙ take_off-index m.side m.price i b j,
  )

  -- The sidecar after a cancel, whether the order is known or not.
  pub index-cancel :
      (i j : OrderId) (b : Book L)
      → IsBook b
      → (cancel i b).0.index j ≡ (if j == i then none else b.index j)
  index-cancel i j b v = elim (Option-cases (b.index i)) [
    | inl e ↦ rw (cancel_unknown i b e) (ground arith)
    | inr (m, e) ↦ (cancel_lem i m b v e).2 j
  ]

  -- An order of at least one lot that a well-formed book accepts can be cancelled at once, and then
  -- every queue and every sidecar entry is as it was before the order came.
  pub cancel-add_resting :
      (o : RestingOrder) (b : Book L)
      → IsBook b
      → 1 ≤ o.qty
      → (add_resting o b).1 ≡ ok tt
      → let after = cancel o.order_id (add_resting o b).0 in
        (after.1 ≡ ok (o.side, o.price))
        × ((s : Side) (p : Price) → queue_at s p after.0 ≡ queue_at s p b)
        × ((j : OrderId) → after.0.index j ≡ b.index j)
  unfolding meta_of
  cancel-add_resting o b v lots h =
      let (fresh, queues, entries) = add_resting_accepted o b v h in
      let known : (add_resting o b).0.index o.order_id ≡ some (meta_of o) =
        ground (arith, entries o.order_id) in
      let (done, removed, dropped) =
        cancel_lem o.order_id (meta_of o) _ (add_resting-IsBook o b lots v) known in
      let not_there : (s : Side) (p : Price) → Queue.has o.order_id (queue_at s p b) ≡ false =
        λ s p. v.consistent.located s p o.order_id ∙ rw fresh refl in
      (
        done,
        λ s p.
            removed s p
            ∙ restored (same_place o.side o.price s p) o b.seq (queue_at s p b) _ (not_there s p)
                (queues s p),
        λ j. dropped j ∙ ground (arith, entries j),
      )
