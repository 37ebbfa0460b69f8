-- ===== src/Matching/Resting.antt =====
-- The operations of crates/matching/src/book.rs that put one order on the book or take it off.
use hft_clob_core.Prelude.{
  ℕ, ◌+◌, ◌-◌, List, [], Option, none, some, is_some, get_or, Result, ok, err, ltb, if◌then◌else◌,
}
use hft_clob_core.Collections.BTreeSet
use hft_clob_core.Collections.HashMap
use hft_clob_core.Domain.Consts.{u64_max}
use hft_clob_core.Domain.Side.{Side}
use hft_clob_core.Domain.Price.{Price}
use hft_clob_core.Domain.OrderId.{OrderId}
use hft_clob_core.Domain.AccountId.{AccountId}
use hft_clob_core.Matching.Types.{
  BookError, duplicate_order_id, unknown_order_id, seq_overflow, level_rejected, OrderMeta,
  RestingOrder,
}
use hft_clob_core.Matching.Queue.{PlOrder}
use hft_clob_core.Matching.Level
use hft_clob_core.Matching.Level.{PriceLevel, PriceLevelError, other_error}
use hft_clob_core.Matching.Book.{Book, level_at, put_level, prune_level}

-- The order as the level container takes it; `seq` is the arrival counter.
unfoldable pub pl_order : RestingOrder → ℕ → PlOrder
pl_order o seq = record {
  id = o.order_id;
  price = o.price;
  quantity = o.qty;
  side = o.side;
  timestamp = seq;
}

unfoldable pub meta_of : RestingOrder → OrderMeta
meta_of o = record { side = o.side; price = o.price; account_id = o.account_id; tif = o.tif }

unfoldable pub book_error : PriceLevelError → BookError
book_error (Level.duplicate_order_id i) = duplicate_order_id
book_error other_error = level_rejected

-- `entry(account).or_default().insert(id)`
unfoldable pub add_to_account : AccountId → OrderId → (ℕ → Option (List ℕ)) → ℕ → Option (List ℕ)
add_to_account a i m = HashMap.insert a (BTreeSet.insert i (get_or (m a) [])) m

-- Takes the id out of the account's set, and the set out of the map if that empties it.
unfoldable pub remove_from_account :
    AccountId → OrderId → (ℕ → Option (List ℕ)) → ℕ → Option (List ℕ)
remove_from_account a i m = elim (m a) [
  | none ↦ m
  | some s ↦
      let s' = BTreeSet.remove i s in
      if BTreeSet.is_empty s' then HashMap.remove a m else HashMap.insert a s' m
]

unfoldable pub drop_located :
    OrderId → Option OrderMeta → (ℕ → Option (List ℕ)) → ℕ → Option (List ℕ)
drop_located i none m = m
drop_located i (some meta) m = remove_from_account meta.account_id i m

module _ {L : Type 0} where
  unfoldable pub drop_from_indices : OrderId → Book L → Book L
  drop_from_indices i b = record b {
    index = HashMap.remove i b.index;
    by_account = drop_located i (b.index i) b.by_account;
  }

  -- The two side tables after an order has entered its level.
  unfoldable pub add_to_indices : RestingOrder → Book L → Book L
  add_to_indices o b = record b {
    index = HashMap.insert o.order_id (meta_of o) b.index;
    by_account = add_to_account o.account_id o.order_id b.by_account;
  }

module _ {L : Type 0} ⦃pl : PriceLevel L⦄ where
  -- What is left of the book when the level refused the order.
  unfoldable pub unwind : RestingOrder → L → Book L → Book L
  unwind o l b =
      let kept = prune_level o.side o.price (put_level o.side o.price l b) in
      record kept { seq = kept.seq - 1 }

  -- Enters the order into its level, which is created if it is missing; `b.seq` is bumped already.
  unfoldable pub enter_level : RestingOrder → L → Book L → Book L × Result BookError (Unit {0})
  enter_level o l b = elim (pl.add_order l (pl_order o b.seq)) [
    | ok l' ↦ (add_to_indices o (put_level o.side o.price l' b), ok tt)
    | err e ↦ (unwind o l b, err (book_error e))
  ]

  -- An order that is `Ioc` is a caller's mistake that only a debug build reports.
  unfoldable pub add_resting : RestingOrder → Book L → Book L × Result BookError (Unit {0})
  add_resting o b =
      if is_some (b.index o.order_id)
      then (b, err duplicate_order_id)
      else if ltb b.seq u64_max
      then enter_level o (get_or (level_at o.side o.price b) (pl.new o.price))
          (record b { seq = b.seq + 1 })
      else (b, err seq_overflow)

  -- `update_order(Cancel)` on the level at that price.
  unfoldable pub cancel_in_level : Side → Price → OrderId → Book L → Book L
  cancel_in_level s p i b = elim (level_at s p b) [
    | none ↦ b
    | some l ↦ put_level s p (pl.update_order l (Level.cancel i)) b
  ]

  unfoldable pub cancel_located :
      OrderId → Option OrderMeta → Book L → Book L × Result BookError (Side × Price)
  cancel_located i none b = (b, err unknown_order_id)
  cancel_located i (some meta) b = elim (level_at meta.side meta.price b) [
    | none ↦ (b, err unknown_order_id)
    | some l ↦ (
      drop_from_indices i
          (prune_level meta.side meta.price (cancel_in_level meta.side meta.price i b)),
      ok (meta.side, meta.price),
    )
  ]

  unfoldable pub cancel : OrderId → Book L → Book L × Result BookError (Side × Price)
  cancel i b = cancel_located i (b.index i) b
