-- ===== src/Tests/Runs.antt =====
-- Runs of the book.
use hft_clob_core.Prelude.{ℕ, ◌+◌, ◌≡◌, refl, List, [], ◌∷◌, some, err, Bool, true, false}
use hft_clob_core.Domain.Side.{bid, ask}
use hft_clob_core.Domain.Side
use hft_clob_core.Domain.Tif.{gtc}
use hft_clob_core.Domain.Qty
use hft_clob_core.Collections.BTreeMap
use hft_clob_core.Collections.BTreeSet
use hft_clob_core.Collections.HashMap
use hft_clob_core.Matching.Types.{
  RestingOrder, AggressiveOrder, IdGenerator, Fill, duplicate_order_id,
}
use hft_clob_core.Matching.Queue
use hft_clob_core.Matching.Queue.{PlOrder}
use hft_clob_core.Matching.Book
use hft_clob_core.Matching.Resting
use hft_clob_core.Matching.Walk
use hft_clob_core.Matching.Modify
use hft_clob_core.Matching.Book.{Book, empty_book, best_bid, best_ask, side_qty}
use hft_clob_core.Matching.Resting.{add_resting, cancel}
use hft_clob_core.Matching.Walk.{Session, match_aggressive}
use hft_clob_core.Matching.Modify.{replace, mass_cancel}
use hft_clob_core.Tests.Fifo.{fifo, add, update}

instance abbrev pub counter : IdGenerator ℕ
counter = record { next_trade_id = λ n. (n, n + 1); next_engine_seq = λ n. (n, n + 1) }

-- What a run has to see through.
unfoldable pub program : Unit {0}
unfolding Book.best_bid Book.best_ask Book.would_cross Book.side_qty Book.prune_level
    Book.bid_levels Book.ask_levels Book.resting_qty Resting.pl_order Resting.meta_of
    Resting.book_error Resting.add_to_account Resting.remove_from_account Resting.drop_located
    Resting.drop_from_indices Resting.add_to_indices Resting.unwind Resting.enter_level
    Resting.add_resting Resting.cancel_in_level Resting.cancel_located Resting.cancel
    Walk.stp_cancel Walk.consume_maker Walk.fill_maker Walk.walk_level Walk.finish_level
    Walk.enter_level Walk.walk_round Walk.walk Walk.start_walk Walk.match_result Walk.walk_all
    Walk.match_aggressive Modify.reduce_in_place Modify.mass_record Modify.mass_drop
    Modify.mass_cancel_one Modify.mass_cancel_ids Modify.mass_cancel Modify.rest_after
    Modify.resubmit Modify.replace_located Modify.replace Modify.resting_of Modify.aggressive_of
    Modify.keeps_priority BTreeMap.get BTreeMap.insert BTreeMap.remove BTreeMap.first_key
    BTreeMap.last_key BTreeSet.insert BTreeSet.remove BTreeSet.contains HashMap.insert
    HashMap.remove Queue.find Queue.has Queue.insert_by_time Queue.remove Queue.set_quantity add
    update Side.opposite Qty.new
program = tt

abbrev pub offer : ℕ → ℕ → ℕ → ℕ → RestingOrder
offer i account price qty = record {
  order_id = i;
  account_id = account;
  side = ask;
  price = price;
  qty = qty;
  tif = gtc;
}

abbrev pub taker : ℕ → ℕ → AggressiveOrder
taker account qty = record {
  order_id = 9;
  account_id = account;
  side = bid;
  price = some 102;
  qty = qty;
  tif = gtc;
}

unfoldable pub two_offers : Book (List PlOrder)
two_offers = (add_resting (offer 2 1 101 7) (add_resting (offer 1 1 100 5) empty_book).0).0

two_offers_best : best_ask two_offers ≡ some 100
unfolding program two_offers
two_offers_best = refl

duplicate : (add_resting (offer 1 3 99 5) two_offers).1 ≡ err duplicate_order_id
unfolding program two_offers
duplicate = refl

abbrev pub session : Session (List PlOrder) ℕ
session = record { book = two_offers; ids = 1; out_fills = []; out_stp = [] }

fill_of : ℕ → ℕ → ℕ → ℕ → Bool → Fill
fill_of trade maker price qty full = record {
  trade_id = trade;
  maker_order_id = maker;
  taker_order_id = 9;
  maker_side = ask;
  price = price;
  qty = qty;
  maker_fully_filled = full;
}

sweep :
    (match_aggressive (taker 2 8) session).0.out_fills
    ≡ fill_of 1 1 100 5 true ∷ fill_of 2 2 101 3 false ∷ []
unfolding program two_offers fill_of
sweep = refl

sweep_all : (match_aggressive (taker 2 20) session).1.taker_remaining ≡ some 8
unfolding program two_offers
sweep_all = refl
