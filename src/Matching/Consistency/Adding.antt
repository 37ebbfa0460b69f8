-- ===== src/Matching/Consistency/Adding.antt =====
-- `Book::add_resting`.
use hft_clob_core.Prelude.{
  ◌+◌, ◌≤◌, ◌≡◌, refl, ap, ap₂, inl, inr, [], ◌∷◌, ◌++◌, none, some, Option-cases, Bool-cases,
  get_or, Result, Result-cases, ok, err, ltb, ◌==◌, if◌then◌else◌, arith, length,
}
use hft_clob_core.Collections.BTreeMap
use hft_clob_core.Collections.HashMap
use hft_clob_core.Domain.Consts.{u64_max}
use hft_clob_core.Domain.Side.{Side, bid, ask}
use hft_clob_core.Domain.Price.{Price}
use hft_clob_core.Domain.OrderId.{OrderId}
use hft_clob_core.Matching.Types.{RestingOrder, BookError, duplicate_order_id, seq_overflow}
use hft_clob_core.Matching.Level.{PriceLevel, IsPriceLevel}
use hft_clob_core.Matching.Book.{Book, level_at, levels_of, put_level, prune_level}
use hft_clob_core.Matching.Resting.{pl_order, meta_of, add_resting, enter_level, unwind, book_error}
use hft_clob_core.Matching.View.{same_place, queue_at}
use hft_clob_core.Matching.Consistency.{IsConsistent, HasOrders, IsBook}
use hft_clob_core.Matching.Consistency.Entering.{
  entry_level, entered, queue_at-entered, entered-IsConsistent, entered-IsPruned, entered-tables,
}

module _ {L : Type 0} ⦃pl : PriceLevel L⦄ ⦃law : IsPriceLevel pl⦄ where
  -- Writing back a level that holds orders, or a new level that holds none, and pruning it.
  prune_level-put_level_same :
      (s : Side) (p : Price) (l : L) (b : Book L)
      → BTreeMap.IsAscending (levels_of s b)
      → level_at s p b ≡ some l
      → 1 ≤ length (law.queue l)
      → prune_level s p (put_level s p l b) ≡ b
  unfolding prune_level
  prune_level-put_level_same bid p l b a e h =
      ground (arith, law.order_count_lem l, BTreeMap.insert_same p l b.bids a e)
  prune_level-put_level_same ask p l b a e h =
      ground (arith, law.order_count_lem l, BTreeMap.insert_same p l b.asks a e)

  prune_level-put_level_new :
      (s : Side) (p : Price) (l : L) (b : Book L)
      → level_at s p b ≡ none
      → law.queue l ≡ []
      → prune_level s p (put_level s p l b) ≡ b
  unfolding prune_level
  prune_level-put_level_new bid p l b e h = ground (
    arith,
    law.order_count_lem l,
    BTreeMap.get-insert p p l b.bids,
    BTreeMap.remove-insert p l b.bids e,
  )
  prune_level-put_level_new ask p l b e h = ground (
    arith,
    law.order_count_lem l,
    BTreeMap.get-insert p p l b.asks,
    BTreeMap.remove-insert p l b.asks e,
  )

  levels-IsAscending :
      (s : Side) (b : Book L) → IsConsistent b → BTreeMap.IsAscending (levels_of s b)
  levels-IsAscending bid b c = c.bids_ascend
  levels-IsAscending ask b c = c.asks_ascend

  prune_entry :
      (s : Side) (p : Price) (b : Book L)
      → BTreeMap.IsAscending (levels_of s b)
      → HasOrders (level_at s p b)
      → prune_level s p (put_level s p (get_or (level_at s p b) (pl.new p)) b) ≡ b
  prune_entry s p b a h = elim (Option-cases (level_at s p b)) [
    | inl e ↦ rw e (prune_level-put_level_new s p (pl.new p) b e (law.queue-new p))
    | inr (l, e) ↦
        let h' : HasOrders (some l) = rw e at h in rw e (prune_level-put_level_same s p l b a e h')
  ]

  -- An order that the level refuses leaves the book as it was: its level, if it was created for
  -- the order, is gone again, and so is the step of the arrival counter.
  unwind_lem :
      (o : RestingOrder) (b : Book L)
      → IsBook b
      → unwind o (entry_level o b) (record b { seq = b.seq + 1 }) ≡ b
  unfolding unwind
  unwind_lem o b v =
      let bumped : Book L = record b { seq = b.seq + 1 } in
      let same : prune_level o.side o.price (put_level o.side o.price (entry_level o b) bumped)
          ≡ bumped =
        elim o.side
          as (λ s.
            prune_level s o.price
              (put_level s o.price (get_or (level_at s o.price b) (pl.new o.price)) bumped)
            ≡ bumped) [
              | bid ↦ prune_entry bid o.price bumped v.consistent.bids_ascend (v.pruned bid o.price)
              | ask ↦ prune_entry ask o.price bumped v.consistent.asks_ascend (v.pruned ask o.price)
            ] in
      ground (arith, same)

  -- What `add_resting` does, on each of its paths.
  pub data Adds (o : RestingOrder) (b : Book L) (r : Book L × Result BookError (Unit {0}))
      : Type 0 where
    refused : (e : BookError) → r ≡ (b, err e) → Adds o b r
    taken :
        (l' : L)
        → b.index o.order_id ≡ none
        → pl.add_order (entry_level o b) (pl_order o (b.seq + 1)) ≡ ok l'
        → r ≡ (entered o l' b, ok tt)
        → Adds o b r

  enter_level_cases :
      (o : RestingOrder) (b : Book L)
      → IsBook b
      → b.index o.order_id ≡ none
      → Adds o b (enter_level o (entry_level o b) (record b { seq = b.seq + 1 }))
  unfolding enter_level
  enter_level_cases o b v fresh =
      elim (Result-cases (pl.add_order (entry_level o b) (pl_order o (b.seq + 1)))) [
        | inl (l', e) ↦ rw (e, enter_level) (taken l' fresh e refl)
        | inr (x, e) ↦
            rw (e, enter_level)
              (refused (book_error x) (ap₂ (λ c r. (c, r)) (unwind_lem o b v) refl))
      ]

  pub add_resting_cases : (o : RestingOrder) (b : Book L) → IsBook b → Adds o b (add_resting o b)
  unfolding add_resting
  add_resting_cases o b v = elim (Option-cases (b.index o.order_id)) [
    | inr (m, e) ↦ rw (e, add_resting) (refused duplicate_order_id refl)
    | inl e ↦ elim (Bool-cases (ltb b.seq u64_max)) [
      | inl t ↦ rw (e, t, add_resting) (enter_level_cases o b v e)
      | inr t ↦ rw (e, t, add_resting) (refused seq_overflow refl)
    ]
  ]

  -- `add_resting` of at least one lot keeps a well-formed book well formed, whether it succeeds or
  -- not.
  pub add_resting-IsBook :
      (o : RestingOrder) (b : Book L) → 1 ≤ o.qty → IsBook b → IsBook (add_resting o b).0
  add_resting-IsBook o b q v = elim (add_resting_cases o b v) [
    | refused e h ↦ rw h v
    | taken l' fresh added h ↦ rw h (record {
      consistent = entered-IsConsistent o b l' v.consistent added fresh q;
      pruned = entered-IsPruned o b l' v.consistent added v.pruned;
    })
  ]

  -- On a well-formed book a refused order leaves the book exactly as it was.
  pub add_resting_refused :
      (o : RestingOrder) (b : Book L) (e : BookError)
      → IsBook b
      → (add_resting o b).1 ≡ err e
      → (add_resting o b).0 ≡ b
  add_resting_refused o b e v h = elim (add_resting_cases o b v) [
    | refused e' r ↦ ap (λ x. x.0) r
    | taken l' fresh added r ↦ cc (ap (λ x. x.1) r, h)
  ]

  -- On a well-formed book an accepted order was not on the book, and now stands behind every other order of its price,
  -- under its own sidecar entry; every other queue and every other entry is as before.
  pub add_resting_accepted :
      (o : RestingOrder) (b : Book L)
      → IsBook b
      → (add_resting o b).1 ≡ ok tt
      → let b' = (add_resting o b).0 in
        (b.index o.order_id ≡ none)
        × ((s : Side) (p : Price)
            → queue_at s p b' ≡ (
                if same_place o.side o.price s p
                then queue_at s p b ++ pl_order o (b.seq + 1) ∷ []
                else queue_at s p b))
        × ((i : OrderId) → b'.index i ≡ (if i == o.order_id then some (meta_of o) else b.index i))
  unfolding HashMap.insert
  add_resting_accepted o b v h = elim (add_resting_cases o b v) [
    | refused e r ↦ cc (ap (λ x. x.1) r, h)
    | taken l' fresh added r ↦
        let same = ap (λ x. x.0) r in
        (
          fresh,
          λ s p. rw same (queue_at-entered o b l' v.consistent added s p),
          λ i. ground (arith, same, entered-tables o b l' v.consistent added),
        )
  ]
