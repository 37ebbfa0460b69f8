-- ===== src/Matching/Modify.antt =====
-- `Book::replace` and `Book::mass_cancel` of crates/matching/src/book.rs.
pub mod Replacing
pub mod Issuing
pub mod Tracking
use hft_clob_core.Prelude.{
  Bool, true, false, not, ◌&&◌, List, [], ◌∷◌, ◌++◌, Option, none, some, get_or, Result, ok, err,
  ltb, ◌==◌, if◌then◌else◌,
}
use hft_clob_core.Domain.Qty
use hft_clob_core.Domain.Qty.{Qty}
use hft_clob_core.Domain.Price.{Price}
use hft_clob_core.Domain.OrderId.{OrderId}
use hft_clob_core.Domain.AccountId.{AccountId}
use hft_clob_core.Matching.Types.{
  BookError, unknown_order_id, OrderMeta, RestingOrder, AggressiveOrder, MassCancellation,
  MatchResult, ReplaceOutcome, IdGenerator,
}
use hft_clob_core.Matching.Level
use hft_clob_core.Matching.Level.{PriceLevel}
use hft_clob_core.Matching.Book.{
  Book, level_at, put_level, would_cross, prune_level, resting_qty, order_qty,
}
use hft_clob_core.Matching.Resting.{add_resting, cancel, cancel_in_level, drop_from_indices}
use hft_clob_core.Matching.Walk.{Session, is_post_only, post_only_result, match_aggressive}

abbrev pub replaced : MatchResult → ReplaceOutcome
replaced r = record { kept_priority = false; match_result = some r }

unfoldable pub resting_of : OrderId → OrderMeta → Price → Qty → RestingOrder
resting_of i meta new_price qty = record {
  order_id = i;
  account_id = meta.account_id;
  side = meta.side;
  price = new_price;
  qty = qty;
  tif = meta.tif;
}

unfoldable pub aggressive_of : OrderId → OrderMeta → Price → Qty → AggressiveOrder
aggressive_of i meta new_price qty = record {
  order_id = i;
  account_id = meta.account_id;
  side = meta.side;
  price = some new_price;
  qty = qty;
  tif = meta.tif;
}

-- An order keeps its place if its price stays and its quantity does not grow.
unfoldable pub keeps_priority : OrderMeta → Price → Qty → Qty → Bool
keeps_priority meta current_qty new_price new_qty =
    new_price == meta.price && not (ltb current_qty new_qty)

module _ {L : Type 0} ⦃pl : PriceLevel L⦄ where
  -- The quantity of an order that keeps its place in the queue.
  unfoldable pub reduce_in_place :
      OrderMeta → OrderId → Qty → Book L → Book L × Result BookError ReplaceOutcome
  reduce_in_place meta i new_qty b = elim (level_at meta.side meta.price b) [
    | none ↦ (b, err unknown_order_id)
    | some l ↦ (
      put_level meta.side meta.price (pl.update_order l (Level.update_quantity i new_qty)) b,
      ok (record { kept_priority = true; match_result = none }),
    )
  ]

  -- The record of one order that a mass cancel drops, and the book after it.
  unfoldable pub mass_record : OrderId → OrderMeta → Book L → MassCancellation
  mass_record i meta b = record {
    order_id = i;
    account_id = meta.account_id;
    side = meta.side;
    price = meta.price;
    qty = elim (level_at meta.side meta.price b) [
      | none ↦ Qty.min_qty
      | some l ↦ get_or (order_qty i l) Qty.min_qty
    ];
  }

  unfoldable pub mass_drop : OrderId → OrderMeta → Book L → Book L
  mass_drop i meta b = elim (level_at meta.side meta.price b) [
    | none ↦ drop_from_indices i b
    | some l ↦
        drop_from_indices i
          (prune_level meta.side meta.price (cancel_in_level meta.side meta.price i b))
  ]

  unfoldable pub mass_cancel_one :
      OrderId → Book L × List MassCancellation → Book L × List MassCancellation
  mass_cancel_one i (b, out) = elim (b.index i) [
    | none ↦ (b, out)
    | some meta ↦ (mass_drop i meta b, out ++ mass_record i meta b ∷ [])
  ]

  unfoldable pub mass_cancel_ids :
      List OrderId → Book L × List MassCancellation → Book L × List MassCancellation
  mass_cancel_ids [] s = s
  mass_cancel_ids (i ∷ ids) s = mass_cancel_ids ids (mass_cancel_one i s)

  -- The number of records is the growth of `out`.
  unfoldable pub mass_cancel :
      AccountId → Book L × List MassCancellation → Book L × List MassCancellation
  mass_cancel account (b, out) = elim (b.by_account account) [
    | none ↦ (b, out)
    | some ids ↦ mass_cancel_ids ids (b, out)
  ]

module _ {L G : Type 0} ⦃pl : PriceLevel L⦄ ⦃gen : IdGenerator G⦄ where
  abbrev with_book : {A : Type 0} → Session L G → Book L × A → Session L G × A
  with_book s (b, a) = (record s { book = b }, a)

  -- The walk under the old id, and the rest of the order behind it on the book.
  unfoldable pub rest_after :
      OrderId
      → OrderMeta
      → Price
      → Session L G × MatchResult
      → Session L G × Result BookError ReplaceOutcome
  rest_after i meta new_price (s, r) =
      if r.taker_stp_cancelled then (s, ok (replaced r)) else elim r.taker_remaining [
        | none ↦ (s, ok (replaced r))
        | some rest ↦
            let (b, added) = add_resting (resting_of i meta new_price rest) s.book in
            elim added [
              | ok _ ↦ (record s { book = b }, ok (replaced r))
              | err e ↦ (record s { book = b }, err e)
            ]
      ]

  unfoldable pub resubmit :
      OrderId
      → OrderMeta
      → Price
      → Qty
      → Session L G
      → Session L G × Result BookError ReplaceOutcome
  resubmit i meta new_price new_qty s =
      let (b, cancelled) = cancel i s.book in
      elim cancelled [
        | ok _ ↦
            rest_after i meta new_price
              (match_aggressive (aggressive_of i meta new_price new_qty) (record s { book = b }))
        | err e ↦ (record s { book = b }, err e)
      ]

  unfoldable pub replace_located :
      OrderId
      → Price
      → Qty
      → Option OrderMeta
      → Session L G
      → Session L G × Result BookError ReplaceOutcome
  replace_located i new_price new_qty none s = (s, err unknown_order_id)
  replace_located i new_price new_qty (some meta) s =
      if keeps_priority meta (get_or (resting_qty i s.book) Qty.min_qty) new_price new_qty
      then with_book s (reduce_in_place meta i new_qty s.book)
      else if is_post_only meta.tif && would_cross meta.side (some new_price) s.book
      then (s, ok (replaced (post_only_result new_qty)))
      else resubmit i meta new_price new_qty s

  unfoldable pub replace :
      OrderId → Price → Qty → Session L G → Session L G × Result BookError ReplaceOutcome
  replace i new_price new_qty s = replace_located i new_price new_qty (s.book.index i) s
