-- ===== src/Matching/Walk/Answer.antt =====
-- What a call of `Book::match_aggressive` returns and leaves behind.
use hft_clob_core.Prelude.{
  suc, ◌≡◌, refl, Bool, true, false, ◌&&◌, ◌++◌, is_some, to_option, arith, length, length-append,
}
use hft_clob_core.Domain.Side
use hft_clob_core.Domain.Side.{Side, bid, ask}
use hft_clob_core.Domain.Qty
use hft_clob_core.Domain.Price.{Price}
use hft_clob_core.Domain.OrderId.{OrderId}
use hft_clob_core.Domain.AccountId.{AccountId}
use hft_clob_core.Matching.Types.{AggressiveOrder, MatchResult, IdGenerator}
use hft_clob_core.Matching.Level.{PriceLevel, IsPriceLevel}
use hft_clob_core.Matching.Book.{Book, would_cross, levels_of}
use hft_clob_core.Matching.View.{queue_at}
use hft_clob_core.Matching.Consistency.{IsBook, is_owned}
use hft_clob_core.Matching.Ladder.{Represents}
use hft_clob_core.Matching.Ladder.Views.{ladder, ladder-Represents, length-ladder}
use hft_clob_core.Matching.Sweep.{SweptLadder, sweep}
use hft_clob_core.Matching.Walk.{
  Session, crosses_limit, is_post_only, start_walk, walk_all, match_result, match_aggressive,
  post_only_result,
}
use hft_clob_core.Matching.Walk.Stamps.{issued, ids_after, length-issued}
use hft_clob_core.Matching.Walk.Rounds.{stop_records, IsMatched}
use hft_clob_core.Matching.Walk.Refinement.{walk-IsMatched}

module _ {L : Type 0} where
  -- The orders on the book that the account owns.
  abbrev pub own_orders : AccountId → Book L → OrderId → Bool
  own_orders a b i = is_owned (b.index i) a

  -- Is the order refused without matching?
  abbrev pub refused : AggressiveOrder → Book L → Bool
  refused taker b = is_post_only taker.tif && would_cross taker.side taker.price b

module _ {L : Type 0} ⦃pl : PriceLevel L⦄ ⦃law : IsPriceLevel pl⦄ where
  -- The sweep of the other side that the incoming order asks for.
  abbrev pub sweep_of : AggressiveOrder → Book L → SweptLadder
  sweep_of taker b =
      sweep (own_orders taker.account_id b) (crosses_limit taker.side taker.price)
        (ladder (Side.opposite taker.side) b) taker.qty

module _ {L G : Type 0} ⦃pl : PriceLevel L⦄ ⦃law : IsPriceLevel pl⦄ ⦃gen : IdGenerator G⦄ where
  -- `s'` and `answer` are what a sweep `d` at `s` leaves and answers: its trades are reported in
  -- their order under fresh ids, the order that stopped it is reported as cancelled, the other side
  -- of the book is its rest, and the taker's side is as it was.
  pub record Sweeps (taker : AggressiveOrder) (s s' : Session L G) (answer : MatchResult)
      (d : SweptLadder) : Type 0 where
    pub fills : s'.out_fills ≡ s.out_fills ++ issued taker s.ids d.trades
    pub ids : s'.ids ≡ ids_after s.ids d.trades
    pub stp : s'.out_stp ≡ s.out_stp ++ stop_records taker d.stopped
    pub fills_count : answer.fills_count ≡ length d.trades
    pub remaining : answer.taker_remaining ≡ to_option (Qty.new d.rest)
    pub stopped : answer.taker_stp_cancelled ≡ is_some d.stopped
    pub represents : Represents (Side.opposite taker.side) s'.book d.left
    pub own_side : (p : Price) → queue_at taker.side p s'.book ≡ queue_at taker.side p s.book
    pub is_book : IsBook s'.book

  module _ (taker : AggressiveOrder) (s : Session L G) (v : IsBook s.book)
      (listed : (l : L) → is_some (pl.snapshot_orders l) ≡ true) where
    walk_all-IsMatched :
        IsMatched taker
          (own_orders taker.account_id s.book)
          (start_walk taker s)
          (walk_all taker s)
          (sweep_of taker s.book)
    unfolding walk_all start_walk
    walk_all-IsMatched =
        walk-IsMatched taker (own_orders taker.account_id s.book) listed
          (suc (length (levels_of (Side.opposite taker.side) s.book)))
          (ladder (Side.opposite taker.side) s.book) _
          (rw (length-ladder (Side.opposite taker.side) s.book) (omega arith))
          (record {
            consistent = v.consistent;
            pruned = v.pruned;
            running = refl;
            not_stopped = refl;
            owns = λ i m h. rw h refl;
          })
          (ladder-Represents _ s.book v)

    -- On a well-formed book, when the listing of a level does not fail, an incoming order that is
    -- not refused does what the sweep of the other side's ladder says, as `Sweeps` has it; the fuel
    -- of the walk is enough for that.
    pub match_aggressive-Sweeps :
        refused taker s.book ≡ false
        → Sweeps taker s
            (match_aggressive taker s).0
            (match_aggressive taker s).1
            (sweep_of taker s.book)
    unfolding match_aggressive match_result start_walk
    match_aggressive-Sweeps h = rw h (record {
      fills = walk_all-IsMatched.fills;
      ids = walk_all-IsMatched.ids;
      stp = walk_all-IsMatched.stp;
      fills_count =
          rw (walk_all-IsMatched.fills, length-append s.out_fills, length-issued taker s.ids)
            (omega arith);
      remaining = rw walk_all-IsMatched.remaining refl;
      stopped = walk_all-IsMatched.stopped;
      represents = walk_all-IsMatched.represents;
      own_side = walk_all-IsMatched.own_side;
      is_book = record {
        consistent = walk_all-IsMatched.consistent;
        pruned = walk_all-IsMatched.pruned;
      };
    })

  -- A refused order changes nothing, and all of it remains.
  pub match_aggressive-refused :
      (taker : AggressiveOrder) (s : Session L G)
      → refused taker s.book ≡ true
      → match_aggressive taker s ≡ (s, post_only_result taker.qty)
  unfolding match_aggressive
  match_aggressive-refused taker s h = rw h refl
