-- ===== src/Matching/Book.antt =====
-- The book of crates/matching/src/book.rs: its state, and the queries that read it.
use hft_clob_core.Prelude.{
  ℕ, ◌%◌, ◌^◌, Bool, true, false, List, [], map, reverse, Option, none, some, get_or, to_option,
  leb, ◌==◌, if◌then◌else◌, sum_by,
}
use hft_clob_core.Collections.BTreeMap
use hft_clob_core.Collections.HashMap
use hft_clob_core.Collections.HashMap.{HashMap}
use hft_clob_core.Domain.Side.{Side, bid, ask}
use hft_clob_core.Domain.Qty
use hft_clob_core.Domain.Qty.{Qty}
use hft_clob_core.Domain.Price.{Price}
use hft_clob_core.Domain.OrderId.{OrderId}
use hft_clob_core.Matching.Types.{OrderMeta}
use hft_clob_core.Matching.Queue
use hft_clob_core.Matching.Queue.{PlOrder}
use hft_clob_core.Matching.Level.{PriceLevel}

pub record Book (L : Type 0) : Type 0 where
  pub bids : List (ℕ × L)
  pub asks : List (ℕ × L)
  pub index : HashMap OrderMeta
  pub by_account : HashMap (List ℕ)
  pub seq : ℕ

abbrev pub Levels : Type 0 → Type 0
Levels L = List (ℕ × L)

-- Does a limit price of a taker on `side` cross a resting price of the other side?
abbrev pub crosses : Side → Price → Price → Bool
crosses bid taker_price level_price = leb level_price taker_price
crosses ask taker_price level_price = leb taker_price level_price

unfoldable pub crosses_best : Side → Option Price → Option Price → Bool
crosses_best side none none = false
crosses_best side none (some opp) = true
crosses_best side (some p) none = false
crosses_best side (some p) (some opp) = crosses side p opp

module _ {L : Type 0} where
  -- `Book::new`
  abbrev pub empty_book : Book L
  empty_book = record {
    bids = [];
    asks = [];
    index = HashMap.empty;
    by_account = HashMap.empty;
    seq = 0;
  }

  -- `match side { Bid => &mut self.bids, Ask => &mut self.asks }`, and a write through it.
  abbrev pub levels_of : Side → Book L → Levels L
  levels_of bid b = b.bids
  levels_of ask b = b.asks

  abbrev pub set_levels : Side → Levels L → Book L → Book L
  set_levels bid m b = record b { bids = m }
  set_levels ask m b = record b { asks = m }

  abbrev pub level_at : Side → Price → Book L → Option L
  level_at s p b = BTreeMap.get p (levels_of s b)

  abbrev pub put_level : Side → Price → L → Book L → Book L
  put_level s p l b = set_levels s (BTreeMap.insert p l (levels_of s b)) b

  abbrev pub remove_level : Side → Price → Book L → Book L
  remove_level s p b = set_levels s (BTreeMap.remove p (levels_of s b)) b

  unfoldable pub best_bid : Book L → Option Price
  best_bid b = BTreeMap.last_key b.bids

  unfoldable pub best_ask : Book L → Option Price
  best_ask b = BTreeMap.first_key b.asks

  -- The best price of the given side.
  abbrev pub best_of : Side → Book L → Option Price
  best_of bid b = best_bid b
  best_of ask b = best_ask b

  unfoldable pub would_cross : Side → Option Price → Book L → Bool
  unfolding crosses_best
  would_cross bid taker_price b = crosses_best bid taker_price (best_ask b)
  would_cross ask taker_price b = crosses_best ask taker_price (best_bid b)

module _ {L : Type 0} ⦃pl : PriceLevel L⦄ where
  -- Removes the level from the price index if it holds no order.
  unfoldable pub prune_level : Side → Price → Book L → Book L
  prune_level s p b = elim (level_at s p b) [
    | none ↦ b
    | some l ↦ if pl.order_count l == 0 then remove_level s p b else b
  ]

  unfoldable pub level_quantity : L → ℕ
  level_quantity l = get_or (pl.total_quantity l) 0

  unfoldable pub qty_at_level : Side → Price → Book L → ℕ
  unfolding level_quantity
  qty_at_level s p b = elim (level_at s p b) [ none ↦ 0 | some l ↦ level_quantity l ]

  unfoldable pub with_quantity : ℕ × L → Price × ℕ
  unfolding level_quantity
  with_quantity (p, l) = (p, level_quantity l)

  -- Best first: descending prices.
  unfoldable pub bid_levels : Book L → List (Price × ℕ)
  unfolding with_quantity
  bid_levels b = map with_quantity (reverse b.bids)

  -- Best first: ascending prices.
  unfoldable pub ask_levels : Book L → List (Price × ℕ)
  unfolding with_quantity
  ask_levels b = map with_quantity b.asks

  -- The sum of u64 totals, which wraps in a release build.
  unfoldable pub side_qty : Side → Book L → ℕ
  unfolding level_quantity
  side_qty s b = sum_by (λ e. level_quantity e.1) (levels_of s b) % 2 ^ 64

  unfoldable pub side_order_count : Side → Book L → ℕ
  side_order_count s b = sum_by (λ e. pl.order_count e.1) (levels_of s b)

  -- The order of that id among the orders of a level, if its quantity is a valid `Qty`.
  unfoldable pub order_qty : OrderId → L → Option Qty
  order_qty i l = elim (Queue.find i (pl.iter_orders l)) [
    | none ↦ none
    | some o ↦ to_option (Qty.new o.quantity)
  ]

  unfoldable pub located_qty : OrderId → Option OrderMeta → Book L → Option Qty
  unfolding order_qty
  located_qty i none b = none
  located_qty i (some meta) b = elim (level_at meta.side meta.price b) [
    | none ↦ none
    | some l ↦ order_qty i l
  ]

  unfoldable pub resting_qty : OrderId → Book L → Option Qty
  unfolding located_qty
  resting_qty i b = located_qty i (b.index i) b
