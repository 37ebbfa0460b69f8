-- ===== src/Matching/View.antt =====
-- The book as the queues of its levels, and what the primitive steps of book.rs do to them.
use hft_clob_core.Prelude.{
  ℕ, ◌≡◌, refl, ap, inl, inr, Bool, true, false, ◌&&◌, List, [], Option, none, some, Option-cases,
  ◌==◌, if◌then◌else◌, arith, length-eq-zero,
}
use hft_clob_core.Collections.BTreeMap.{get-insert, get-remove}
use hft_clob_core.Domain.Side.{Side, bid, ask}
use hft_clob_core.Domain.Price.{Price}
use hft_clob_core.Domain.OrderId.{OrderId}
use hft_clob_core.Matching.Queue
use hft_clob_core.Matching.Queue.{PlOrder}
use hft_clob_core.Matching.Level.{PriceLevel, IsPriceLevel, cancel}
use hft_clob_core.Matching.Book.{Book, level_at, put_level, remove_level, prune_level}
use hft_clob_core.Matching.Resting.{cancel_in_level, drop_from_indices, add_to_indices}
use hft_clob_core.Matching.Types.{RestingOrder}

abbrev pub same_side : Side → Side → Bool
same_side bid bid = true
same_side bid ask = false
same_side ask bid = false
same_side ask ask = true

-- Is the second place the first one?
abbrev pub same_place : Side → Price → Side → Price → Bool
same_place s p s' p' = same_side s s' && p == p'

pub same_place_eq : (s s' : Side) (p p' : Price) → same_place s p s' p' ≡ true → (s ≡ s') × (p ≡ p')
same_place_eq bid bid p p' h = ground arith
same_place_eq bid ask p p' h = ground arith
same_place_eq ask bid p p' h = ground arith
same_place_eq ask ask p p' h = ground arith

pub same_place_refl : (s : Side) (p : Price) → same_place s p s p ≡ true
same_place_refl bid p = ground arith
same_place_refl ask p = ground arith

module _ {L : Type 0} where
  pub level_at-same_place :
      (s s' : Side) (p p' : Price) (b : Book L)
      → same_place s p s' p' ≡ true
      → level_at s p b ≡ level_at s' p' b
  level_at-same_place bid bid p p' b h = ground arith
  level_at-same_place bid ask p p' b h = cc
  level_at-same_place ask bid p p' b h = cc
  level_at-same_place ask ask p p' b h = ground arith

  pub level_at-put_level :
      (s' : Side) (p' : Price) (s : Side) (p : Price) (l : L) (b : Book L)
      → level_at s' p' (put_level s p l b)
        ≡ (if same_place s p s' p' then some l else level_at s' p' b)
  level_at-put_level bid p' bid p l b = ground (arith, get-insert p' p l b.bids)
  level_at-put_level bid p' ask p l b = refl
  level_at-put_level ask p' bid p l b = refl
  level_at-put_level ask p' ask p l b = ground (arith, get-insert p' p l b.asks)

  pub level_at-remove_level :
      (s' : Side) (p' : Price) (s : Side) (p : Price) (b : Book L)
      → level_at s' p' (remove_level s p b)
        ≡ (if same_place s p s' p' then none else level_at s' p' b)
  level_at-remove_level bid p' bid p b = ground (arith, get-remove p' p b.bids)
  level_at-remove_level bid p' ask p b = refl
  level_at-remove_level ask p' bid p b = refl
  level_at-remove_level ask p' ask p b = ground (arith, get-remove p' p b.asks)

  -- The arrival counter is no part of the view.
  pub level_at-bump :
      (s : Side) (p : Price) (n : ℕ) (b : Book L)
      → level_at s p (record b { seq = n }) ≡ level_at s p b
  level_at-bump bid p n b = refl
  level_at-bump ask p n b = refl

  pub level_at-drop_from_indices :
      (s : Side) (p : Price) (i : OrderId) (b : Book L)
      → level_at s p (drop_from_indices i b) ≡ level_at s p b
  unfolding drop_from_indices
  level_at-drop_from_indices bid p i b = refl
  level_at-drop_from_indices ask p i b = refl

  pub level_at-add_to_indices :
      (s : Side) (p : Price) (o : RestingOrder) (b : Book L)
      → level_at s p (add_to_indices o b) ≡ level_at s p b
  unfolding add_to_indices
  level_at-add_to_indices bid p o b = refl
  level_at-add_to_indices ask p o b = refl

module _ {L : Type 0} ⦃pl : PriceLevel L⦄ ⦃law : IsPriceLevel pl⦄ where
  abbrev pub queue_of : Option L → List PlOrder
  queue_of none = []
  queue_of (some l) = law.queue l

  -- The orders that rest at a price, oldest first.
  unfoldable pub queue_at : Side → Price → Book L → List PlOrder
  queue_at s p b = queue_of (level_at s p b)

  pub queue_at-same_place :
      (s s' : Side) (p p' : Price) (b : Book L)
      → same_place s p s' p' ≡ true
      → queue_at s p b ≡ queue_at s' p' b
  unfolding queue_at
  queue_at-same_place s s' p p' b h = ground (arith, level_at-same_place s s' p p' b h)

  pub queue_at-bump :
      (s : Side) (p : Price) (n : ℕ) (b : Book L)
      → queue_at s p (record b { seq = n }) ≡ queue_at s p b
  unfolding queue_at
  queue_at-bump s p n b = ap queue_of (level_at-bump s p n b)

  pub queue_at-put_level :
      (s' : Side) (p' : Price) (s : Side) (p : Price) (l : L) (b : Book L)
      → queue_at s' p' (put_level s p l b)
        ≡ (if same_place s p s' p' then law.queue l else queue_at s' p' b)
  unfolding queue_at
  queue_at-put_level s' p' s p l b = ground (arith, level_at-put_level s' p' s p l b)

  pub queue_at-drop_from_indices :
      (s : Side) (p : Price) (i : OrderId) (b : Book L)
      → queue_at s p (drop_from_indices i b) ≡ queue_at s p b
  unfolding queue_at
  queue_at-drop_from_indices s p i b = ground (arith, level_at-drop_from_indices s p i b)

  pub queue_at-add_to_indices :
      (s : Side) (p : Price) (o : RestingOrder) (b : Book L)
      → queue_at s p (add_to_indices o b) ≡ queue_at s p b
  unfolding queue_at
  queue_at-add_to_indices s p o b = ground (arith, level_at-add_to_indices s p o b)

  -- An update of the level at a place, where there is one.
  pub queue_at-cancel_in_level :
      (s' : Side) (p' : Price) (s : Side) (p : Price) (i : OrderId) (b : Book L)
      → queue_at s' p' (cancel_in_level s p i b)
        ≡ (if same_place s p s' p' then Queue.remove i (queue_at s' p' b) else queue_at s' p' b)
  unfolding queue_at cancel_in_level Queue.remove
  queue_at-cancel_in_level s' p' s p i b = elim (Option-cases (level_at s p b)) [
    | inl e ↦ rw (e, cancel_in_level) (ground (arith, level_at-same_place s s' p p' b))
    | inr (l, e) ↦
        rw (e, cancel_in_level)
          (ground (
            arith,
            level_at-put_level s' p' s p (pl.update_order l (cancel i)) b,
            law.queue-cancel l i,
            level_at-same_place s s' p p' b,
          ))
  ]

  -- Pruning an empty level changes no queue.
  pub queue_at-prune_level :
      (s' : Side) (p' : Price) (s : Side) (p : Price) (b : Book L)
      → queue_at s' p' (prune_level s p b) ≡ queue_at s' p' b
  unfolding queue_at prune_level
  queue_at-prune_level s' p' s p b = elim (Option-cases (level_at s p b)) [
    | inl e ↦ rw (e, prune_level) refl
    | inr (l, e) ↦
        rw (e, prune_level)
          (ground (
            arith,
            law.order_count_lem l,
            length-eq-zero (law.queue l),
            level_at-remove_level s' p' s p b,
            level_at-same_place s s' p p' b,
          ))
  ]
