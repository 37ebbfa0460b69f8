-- ===== src/Matching/Walk.antt =====
-- `Book::match_aggressive` of crates/matching/src/book.rs: the walk of an incoming order over the
-- other side, best price first and oldest order first.
pub mod Stamps
pub mod Steps
pub mod Sweeping
pub mod LevelSweep
pub mod Rounds
pub mod Equations
pub mod Refinement
pub mod Answer
pub mod Guarantees
pub mod Tracking
use hft_clob_core.Prelude.{
  ℕ, zero, suc, ◌+◌, ◌-◌, Bool, true, false, not, ◌&&◌, List, [], ◌∷◌, ◌++◌, Option, none, some,
  get_or, to_option, ltb, ◌==◌, if◌then◌else◌, min, length,
}
use hft_clob_core.Domain.Side
use hft_clob_core.Domain.Side.{Side, bid, ask}
use hft_clob_core.Domain.Tif.{Tif, gtc, ioc, post_only}
use hft_clob_core.Domain.Qty
use hft_clob_core.Domain.Price.{Price}
use hft_clob_core.Matching.Types.{
  OrderMeta, AggressiveOrder, Fill, StpCancellation, MatchResult, IdGenerator,
}
use hft_clob_core.Matching.Queue.{PlOrder}
use hft_clob_core.Matching.Level
use hft_clob_core.Matching.Level.{PriceLevel}
use hft_clob_core.Matching.Book.{
  Book, levels_of, level_at, put_level, best_of, crosses, would_cross, prune_level, best_bid,
  best_ask,
}
use hft_clob_core.Matching.Resting.{drop_from_indices, cancel_in_level}

-- What `match_aggressive` may change: the book, the id generator and the two output buffers.
pub record Session (L G : Type 0) : Type 0 where
  pub book : Book L
  pub ids : G
  pub out_fills : List Fill
  pub out_stp : List StpCancellation

-- The local variables of the walk; `halted` is set where the source says `break 'walk`.
pub record Walk (L G : Type 0) : Type 0 where
  pub session : Session L G
  pub remaining : ℕ
  pub taker_stp_cancelled : Bool
  pub halted : Bool

abbrev pub is_post_only : Tif → Bool
is_post_only gtc = false
is_post_only ioc = false
is_post_only post_only = true

-- A market order has no limit and always crosses.
abbrev pub crosses_limit : Side → Option Price → Price → Bool
crosses_limit side none level_price = true
crosses_limit side (some p) level_price = crosses side p level_price

-- The answer to an order that must not take and would.
abbrev pub post_only_result : ℕ → MatchResult
post_only_result qty = record {
  fills_count = 0;
  stp_cancellations = 0;
  taker_remaining = some qty;
  taker_stp_cancelled = false;
  taker_post_only_rejected = true;
}

module _ {L G : Type 0} where
  abbrev pub halt : Walk L G → Walk L G
  halt w = record w { halted = true }

module _ {L : Type 0} ⦃pl : PriceLevel L⦄ where
  -- The maker after a fill: cancelled in its level and dropped, or reduced in its place.
  unfoldable pub consume_maker : Side → Price → PlOrder → ℕ → Book L → Book L
  consume_maker maker_side price head fill_qty b =
      if head.quantity - fill_qty == 0
      then drop_from_indices head.id (cancel_in_level maker_side price head.id b)
      else elim (level_at maker_side price b) [
        | none ↦ b
        | some l ↦
            put_level maker_side price
              (pl.update_order l (Level.update_quantity head.id (head.quantity - fill_qty))) b
      ]

module _ {L G : Type 0} ⦃pl : PriceLevel L⦄ ⦃gen : IdGenerator G⦄ where
  -- Takes the maker off the book and halts; the taker is cancelled as well.
  unfoldable pub stp_cancel : AggressiveOrder → Price → PlOrder → OrderMeta → Walk L G → Walk L G
  stp_cancel taker price head meta w =
      let maker_side = Side.opposite taker.side in
      let dropped =
        drop_from_indices head.id (cancel_in_level maker_side price head.id w.session.book) in
      let record_of : StpCancellation = record {
        order_id = head.id;
        account_id = meta.account_id;
        side = meta.side;
        price = price;
        qty = get_or (to_option (Qty.new head.quantity)) Qty.min_qty;
      } in
      record w {
        session = record (w.session) {
          book = prune_level maker_side price dropped;
          out_stp = w.session.out_stp ++ record_of ∷ [];
        };
        taker_stp_cancelled = true;
        halted = true;
      }

  -- The quantity that trades is positive here, so that `Qty::new` cannot fail.
  unfoldable pub fill_maker : AggressiveOrder → Price → PlOrder → Walk L G → Walk L G
  fill_maker taker price head w =
      let fill_qty = min w.remaining head.quantity in
      let maker_side = Side.opposite taker.side in
      let (trade_id, ids') = gen.next_trade_id w.session.ids in
      let fill : Fill = record {
        trade_id = trade_id;
        maker_order_id = head.id;
        taker_order_id = taker.order_id;
        maker_side = maker_side;
        price = price;
        qty = fill_qty;
        maker_fully_filled = head.quantity - fill_qty == 0;
      } in
      record w {
        session = record (w.session) {
          book = consume_maker maker_side price head fill_qty w.session.book;
          ids = ids';
          out_fills = w.session.out_fills ++ fill ∷ [];
        };
        remaining = w.remaining - fill_qty;
      }

  -- The `'level` loop over the snapshot of one level. A fill that leaves the maker a rest has used
  -- up the taker, so that the next round ends the loop wherever the snapshot index stands.
  unfoldable pub walk_level : AggressiveOrder → Price → List PlOrder → Walk L G → Walk L G
  walk_level taker price [] w = w
  walk_level taker price (head ∷ rest) w =
      if w.remaining == 0 then w else elim (w.session.book.index head.id) [
        | none ↦ halt w
        | some meta ↦
            if meta.account_id == taker.account_id
            then stp_cancel taker price head meta w
            else if head.quantity == 0
            then halt w
            else walk_level taker price rest (fill_maker taker price head w)
      ]

  -- After the loop the level is removed if it is empty; a `break 'walk` skips that.
  unfoldable pub finish_level : Side → Price → Walk L G → Walk L G
  finish_level maker_side price w = if w.halted then w else record w {
    session = record (w.session) { book = prune_level maker_side price w.session.book };
  }

  unfoldable pub enter_level : AggressiveOrder → Price → Walk L G → Walk L G
  enter_level taker price w = elim (level_at (Side.opposite taker.side) price w.session.book) [
    | none ↦ halt w
    | some l ↦ elim (pl.snapshot_orders l) [
      | none ↦ halt w
      | some heads ↦ finish_level (Side.opposite taker.side) price (walk_level taker price heads w)
    ]
  ]

  -- One round of the `'walk` loop at the best price of the other side.
  unfoldable pub walk_round : AggressiveOrder → Walk L G → Walk L G
  walk_round taker w = elim (best_of (Side.opposite taker.side) w.session.book) [
    | none ↦ halt w
    | some level_price ↦
        if crosses_limit taker.side taker.price level_price
        then enter_level taker level_price w
        else halt w
  ]

  -- Each round takes a level off the book or is the last, so that the number of levels of the
  -- other side, and one more round, is fuel enough.
  unfoldable pub walk : ℕ → AggressiveOrder → Walk L G → Walk L G
  walk zero taker w = w
  walk (suc fuel) taker w =
      let next = walk fuel taker (walk_round taker w) in
      if w.halted then w else if w.remaining == 0 then w else next

  unfoldable pub start_walk : AggressiveOrder → Session L G → Walk L G
  start_walk taker s = record {
    session = s;
    remaining = taker.qty;
    taker_stp_cancelled = false;
    halted = false;
  }

  unfoldable pub match_result : Session L G → Walk L G → MatchResult
  match_result s w = record {
    fills_count = length w.session.out_fills - length s.out_fills;
    stp_cancellations = length w.session.out_stp - length s.out_stp;
    taker_remaining = to_option (Qty.new w.remaining);
    taker_stp_cancelled = w.taker_stp_cancelled;
    taker_post_only_rejected = false;
  }

  unfoldable pub walk_all : AggressiveOrder → Session L G → Walk L G
  unfolding start_walk
  walk_all taker s =
      walk (suc (length (levels_of (Side.opposite taker.side) s.book))) taker (start_walk taker s)

  unfoldable pub match_aggressive : AggressiveOrder → Session L G → Session L G × MatchResult
  unfolding match_result
  match_aggressive taker s =
      if is_post_only taker.tif && would_cross taker.side taker.price s.book
      then (s, post_only_result taker.qty)
      else let w = walk_all taker s in (w.session, match_result s w)
