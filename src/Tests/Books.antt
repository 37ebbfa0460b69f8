-- ===== src/Tests/Books.antt =====
-- The theorems on the book at concrete inputs.
use hft_clob_core.Prelude.{
  ◌+◌, ◌≡◌, refl, List, [], ◌∷◌, ◌++◌, map, none, some, true, false, get_or, is_some, All, arith,
  if◌then◌else◌, ◌==◌,
}
use hft_clob_core.Domain.Side
use hft_clob_core.Domain.Side.{Side, bid, ask}
use hft_clob_core.Domain.Price.{Price}
use hft_clob_core.Domain.OrderId.{OrderId}
use hft_clob_core.Matching.Types.{Fill, duplicate_order_id}
use hft_clob_core.Matching.Queue.{PlOrder}
use hft_clob_core.Matching.Level.{IsPriceLevel}
use hft_clob_core.Matching.Book.{Book, empty_book, would_cross}
use hft_clob_core.Matching.Resting.{add_resting, cancel, pl_order, meta_of}
use hft_clob_core.Matching.View.{queue_at, same_place}
use hft_clob_core.Matching.Consistency.{IsBook, empty_book-IsBook}
use hft_clob_core.Matching.Consistency.Adding.{
  add_resting-IsBook, add_resting_refused, add_resting_accepted,
}
use hft_clob_core.Matching.Consistency.Cancelling.{cancel-IsBook}
use hft_clob_core.Matching.Ladder.Views.{ladder}
use hft_clob_core.Matching.Sweep.Laws.{IsPrefix, by_priority}
use hft_clob_core.Matching.Walk.{match_aggressive}
use hft_clob_core.Matching.Walk.Answer.{Sweeps, sweep_of, own_orders, match_aggressive-Sweeps}
use hft_clob_core.Matching.Walk.Guarantees.{
  filled, IsAllowedFill, match_aggressive-conserves, match_aggressive_fills,
  match_aggressive_uncrossed,
}
use hft_clob_core.Tests.Fifo.{fifo, fifo-IsPriceLevel}
use hft_clob_core.Tests.Runs.{counter, program, offer, taker, two_offers, session}

instance pub fifo_law : IsPriceLevel fifo
fifo_law = fifo-IsPriceLevel

one_offer : Book (List PlOrder)
one_offer = (add_resting (offer 1 1 100 5) empty_book).0

one_offer-IsBook : IsBook one_offer
unfolding one_offer
one_offer-IsBook = add_resting-IsBook (offer 1 1 100 5) empty_book (omega arith) empty_book-IsBook

pub two_offers-IsBook : IsBook two_offers
unfolding two_offers one_offer
two_offers-IsBook = add_resting-IsBook (offer 2 1 101 7) one_offer (omega arith) one_offer-IsBook

pub listed : (l : List PlOrder) → is_some (fifo.snapshot_orders l) ≡ true
listed l = refl

match_aggressive-Sweeps_example :
    Sweeps
      (taker 2 8)
      session
      (match_aggressive (taker 2 8) session).0
      (match_aggressive (taker 2 8) session).1
      (sweep_of (taker 2 8) two_offers)
unfolding program
match_aggressive-Sweeps_example =
    match_aggressive-Sweeps (taker 2 8) session two_offers-IsBook listed refl

match_aggressive_fills_example :
    (new : List Fill) × ((match_aggressive (taker 2 8) session).0.out_fills ≡ new)
    × All (IsAllowedFill (taker 2 8) (own_orders 2 two_offers)) new
    × IsPrefix (map (λ f. f.maker_order_id) new) (by_priority (ladder ask two_offers))
unfolding Side.opposite
match_aggressive_fills_example = match_aggressive_fills (taker 2 8) session two_offers-IsBook listed

match_aggressive-conserves_example :
    filled (match_aggressive (taker 2 20) session).0.out_fills
      + get_or (match_aggressive (taker 2 20) session).1.taker_remaining 0
    ≡ 20
match_aggressive-conserves_example =
    match_aggressive-conserves (taker 2 20) session two_offers-IsBook listed

match_aggressive_uncrossed_example :
    would_cross bid (some 102) (match_aggressive (taker 2 20) session).0.book ≡ false
unfolding program two_offers
match_aggressive_uncrossed_example =
    match_aggressive_uncrossed (taker 2 20) session two_offers-IsBook listed refl refl refl

add_resting-IsBook_example : IsBook (add_resting (offer 3 2 100 4) two_offers).0
add_resting-IsBook_example =
    add_resting-IsBook (offer 3 2 100 4) two_offers (omega arith) two_offers-IsBook

add_resting_refused_example : (add_resting (offer 1 3 99 5) two_offers).0 ≡ two_offers
unfolding program two_offers
add_resting_refused_example =
    add_resting_refused (offer 1 3 99 5) two_offers duplicate_order_id two_offers-IsBook refl

cancel-IsBook_example : IsBook (cancel 1 two_offers).0
cancel-IsBook_example = cancel-IsBook 1 two_offers two_offers-IsBook

add_resting_accepted_example :
    let b' = (add_resting (offer 3 2 100 4) two_offers).0 in
    (two_offers.index 3 ≡ none)
    × ((s : Side) (p : Price)
        → queue_at s p b' ≡ (
            if same_place ask 100 s p
            then queue_at s p two_offers ++ pl_order (offer 3 2 100 4) (two_offers.seq + 1) ∷ []
            else queue_at s p two_offers))
    × ((i : OrderId)
        → b'.index i ≡ (if i == 3 then some (meta_of (offer 3 2 100 4)) else two_offers.index i))
unfolding program two_offers
add_resting_accepted_example =
    add_resting_accepted (offer 3 2 100 4) two_offers two_offers-IsBook refl
