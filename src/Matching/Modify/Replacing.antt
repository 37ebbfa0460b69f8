-- ===== src/Matching/Modify/Replacing.antt =====
-- What `Book::replace` leaves behind.
use hft_clob_core.Prelude.{
  ◌≤◌, ◌≡◌, refl, inl, inr, true, false, ◌&&◌, none, some, Option-cases, Bool-cases, Result-cases,
  is_some, get_or, ok, err, arith,
}
use hft_clob_core.Domain.Side.{Side}
use hft_clob_core.Domain.Price.{Price}
use hft_clob_core.Domain.Qty
use hft_clob_core.Domain.Qty.{Qty}
use hft_clob_core.Domain.OrderId.{OrderId}
use hft_clob_core.Matching.Types.{
  unknown_order_id, OrderMeta, AggressiveOrder, MatchResult, IdGenerator,
}
use hft_clob_core.Matching.Queue
use hft_clob_core.Matching.Queue.{PlOrder}
use hft_clob_core.Matching.Level.{PriceLevel, IsPriceLevel}
use hft_clob_core.Matching.Book.{Book, level_at, would_cross, resting_qty, located_qty, order_qty}
use hft_clob_core.Matching.Resting.{add_resting, cancel}
use hft_clob_core.Matching.View.{queue_at}
use hft_clob_core.Matching.Consistency.{IsConsistent, IsBook}
use hft_clob_core.Matching.Consistency.Reducing.{reduced, reduced-IsConsistent, reduced-IsPruned}
use hft_clob_core.Matching.Consistency.Adding.{add_resting-IsBook}
use hft_clob_core.Matching.Consistency.Cancelling.{cancel-IsBook, level_of_known}
use hft_clob_core.Matching.Walk.{Session, is_post_only, match_aggressive, post_only_result}
use hft_clob_core.Matching.Walk.Answer.{refused, match_aggressive-refused, match_aggressive-Sweeps}
use hft_clob_core.Matching.Walk.Guarantees.{match_aggressive-IsBook}
use hft_clob_core.Matching.Modify.{
  resting_of, aggressive_of, keeps_priority, reduce_in_place, rest_after, resubmit, replace_located,
  replace, replaced,
}

module _ {L : Type 0} ⦃pl : PriceLevel L⦄ ⦃law : IsPriceLevel pl⦄ where
  -- The level and the order that the sidecar points at; `resting_qty` reads that order's lots.
  located_order :
      (i : OrderId) (m : OrderMeta) (b : Book L)
      → IsConsistent b
      → b.index i ≡ some m
      → (l : L) × (o : PlOrder) × (level_at m.side m.price b ≡ some l)
        × (Queue.find i (law.queue l) ≡ some o)
        × (1 ≤ o.quantity)
        × (resting_qty i b ≡ some o.quantity)
  unfolding resting_qty located_qty order_qty queue_at
  located_order i m b c e =
      let (l, there, has) = level_of_known i m b c e in
      elim (Option-cases (Queue.find i (law.queue l))) [
        | inl h ↦ absurd (ground (arith, Queue.has-find i (law.queue l)))
        | inr (o, h) ↦
            let lots =
              (Queue.find_quantity b.seq i (law.queue l) o (rw there at (c.queues m.side m.price))
                h).0 in
            (
              l,
              o,
              there,
              h,
              lots,
              ground (arith, law.find-iter_orders l i, Qty.new_lots o.quantity lots, e, there),
            )
      ]

  reduce_in_place-reduced :
      (m : OrderMeta) (i : OrderId) (new : Qty) (l : L) (b : Book L)
      → level_at m.side m.price b ≡ some l
      → reduce_in_place m i new b ≡ (
        reduced m.side m.price l i new b,
        ok (record { kept_priority = true; match_result = none }),
      )
  unfolding reduce_in_place
  reduce_in_place-reduced m i new l b there = rw (there, reduce_in_place) refl

  reduce_in_place-IsBook :
      (m : OrderMeta) (i : OrderId) (new : Qty) (b : Book L)
      → IsBook b
      → b.index i ≡ some m
      → 1 ≤ new
      → new ≤ get_or (resting_qty i b) Qty.min_qty
      → IsBook (reduce_in_place m i new b).0
  reduce_in_place-IsBook m i new b v e lots h =
      let (l, o, there, found, _, current) = located_order i m b v.consistent e in
      let less : new ≤ o.quantity = rw current at h in
      rw (reduce_in_place-reduced m i new l b there) (record {
        consistent =
            reduced-IsConsistent m.side m.price l i new o b there found lots less v.consistent;
        pruned = reduced-IsPruned m.side m.price l i new o b there found lots less v.pruned;
      })

-- A quantity that does not grow, at the old price.
keeps_priority-lots :
    (m : OrderMeta) (p : Price) (current new : Qty)
    → keeps_priority m current p new ≡ true
    → new ≤ current
unfolding keeps_priority
keeps_priority-lots m p current new h = ground arith

module _ {L G : Type 0} ⦃pl : PriceLevel L⦄ ⦃law : IsPriceLevel pl⦄ ⦃gen : IdGenerator G⦄ where
  rest_after-IsBook :
      (i : OrderId) (m : OrderMeta) (p : Price) (s : Session L G) (r : MatchResult)
      → IsBook s.book
      → ((q : Qty) → r.taker_remaining ≡ some q → 1 ≤ q)
      → IsBook (rest_after i m p (s, r)).0.book
  unfolding rest_after resting_of
  rest_after-IsBook i m p s r v lots = elim (Bool-cases r.taker_stp_cancelled) [
    | inl h ↦ rw h v
    | inr h ↦ elim (Option-cases r.taker_remaining) [
      | inl e ↦ rw (h, rest_after) (rw e v)
      | inr (q, e) ↦
          let rested = add_resting-IsBook (resting_of i m p q) s.book (lots q e) v in
          elim (Result-cases (add_resting (resting_of i m p q) s.book).1) [
            | inl (u, x) ↦ rw (h, rest_after) (rw e (rw x rested))
            | inr (u, x) ↦ rw (h, rest_after) (rw e (rw x rested))
          ]
    ]
  ]

  pub replace_unknown :
      (i : OrderId) (p : Price) (new : Qty) (s : Session L G)
      → s.book.index i ≡ none
      → replace i p new s ≡ (s, err unknown_order_id)
  unfolding replace replace_located
  replace_unknown i p new s e = rw (e, replace) refl

  pub replace_kept :
      (i : OrderId) (m : OrderMeta) (p : Price) (new : Qty) (s : Session L G)
      → s.book.index i ≡ some m
      → keeps_priority m (get_or (resting_qty i s.book) Qty.min_qty) p new ≡ true
      → replace i p new s ≡ (
        record s { book = (reduce_in_place m i new s.book).0 },
        (reduce_in_place m i new s.book).1,
      )
  unfolding replace replace_located
  replace_kept i m p new s e k = rw (e, replace) (rw (k, replace_located) refl)

  pub replace_gated :
      (i : OrderId) (m : OrderMeta) (p : Price) (new : Qty) (s : Session L G)
      → s.book.index i ≡ some m
      → keeps_priority m (get_or (resting_qty i s.book) Qty.min_qty) p new ≡ false
      → (is_post_only m.tif && would_cross m.side (some p) s.book) ≡ true
      → replace i p new s ≡ (s, ok (replaced (post_only_result new)))
  unfolding replace replace_located
  replace_gated i m p new s e k g = rw (e, replace) (rw (k, replace_located) (rw g refl))

  pub replace_resubmits :
      (i : OrderId) (m : OrderMeta) (p : Price) (new : Qty) (s : Session L G)
      → s.book.index i ≡ some m
      → keeps_priority m (get_or (resting_qty i s.book) Qty.min_qty) p new ≡ false
      → (is_post_only m.tif && would_cross m.side (some p) s.book) ≡ false
      → replace i p new s ≡ resubmit i m p new s
  unfolding replace replace_located
  replace_resubmits i m p new s e k g = rw (e, replace) (rw (k, replace_located) (rw g refl))

  -- What the walk answers as remaining is at least one lot.
  remaining_lots :
      (taker : AggressiveOrder) (s : Session L G)
      → IsBook s.book
      → ((l : L) → is_some (pl.snapshot_orders l) ≡ true)
      → 1 ≤ taker.qty
      → (q : Qty) → (match_aggressive taker s).1.taker_remaining ≡ some q
      → 1 ≤ q
  unfolding Qty.new
  remaining_lots taker s v listed lots q e = elim (Bool-cases (refused taker s.book)) [
    | inl h ↦ ground (arith, rw (match_aggressive-refused taker s h) at e)
    | inr h ↦ ground (arith, (match_aggressive-Sweeps taker s v listed h).remaining)
  ]

  resubmit-IsBook :
      (i : OrderId) (m : OrderMeta) (p : Price) (new : Qty) (s : Session L G)
      → IsBook s.book
      → ((l : L) → is_some (pl.snapshot_orders l) ≡ true)
      → 1 ≤ new
      → IsBook (resubmit i m p new s).0.book
  unfolding resubmit aggressive_of
  resubmit-IsBook i m p new s v listed lots =
      let left = cancel-IsBook i s.book v in
      let s' : Session L G = record s { book = (cancel i s.book).0 } in
      let taker = aggressive_of i m p new in
      elim (Result-cases (cancel i s.book).1) [
        | inl (u, x) ↦
            rw (x, resubmit)
              (rest_after-IsBook i m p (match_aggressive taker s').0 (match_aggressive taker s').1
                (match_aggressive-IsBook taker s' left listed)
                (remaining_lots taker s' left listed lots))
        | inr (u, x) ↦ rw (x, resubmit) left
      ]

  -- Every call of `replace` with a quantity of at least one lot keeps the book well formed, when
  -- the listing of a level does not fail: with the order unknown, reduced in place, refused as post
  -- only, traded, cancelled for a self-trade, resting again or refused by the book.
  pub replace-IsBook :
      (i : OrderId) (p : Price) (new : Qty) (s : Session L G)
      → IsBook s.book
      → ((l : L) → is_some (pl.snapshot_orders l) ≡ true)
      → 1 ≤ new
      → IsBook (replace i p new s).0.book
  replace-IsBook i p new s v listed lots = elim (Option-cases (s.book.index i)) [
    | inl e ↦ rw (replace_unknown i p new s e) v
    | inr (m, e) ↦
        let current = get_or (resting_qty i s.book) Qty.min_qty in
        elim (Bool-cases (keeps_priority m current p new)) [
          | inl k ↦ rw (replace_kept i m p new s e k) (
              reduce_in_place-IsBook m i new s.book v e lots
                (keeps_priority-lots m p current new k))
          | inr k ↦ elim (Bool-cases (is_post_only m.tif && would_cross m.side (some p) s.book)) [
            | inl g ↦ rw (replace_gated i m p new s e k g) v
            | inr g ↦
                rw (replace_resubmits i m p new s e k g) (resubmit-IsBook i m p new s v listed lots)
          ]
        ]
  ]
