-- ===== src/Tests/Changes.antt =====
-- The theorems on cancelling and replacing at concrete inputs.
use hft_clob_core.Prelude.{◌≡◌, refl, [], ◌∷◌, none, ok, arith, if◌then◌else◌, ◌==◌}
use hft_clob_core.Collections.BTreeSet
use hft_clob_core.Domain.Side.{Side, ask}
use hft_clob_core.Domain.Tif.{gtc}
use hft_clob_core.Domain.Price.{Price}
use hft_clob_core.Domain.OrderId.{OrderId}
use hft_clob_core.Matching.Types.{OrderMeta}
use hft_clob_core.Matching.Book
use hft_clob_core.Matching.Book.{best_of, qty_at_level, bid_levels, ask_levels}
use hft_clob_core.Matching.Ladder.Depth.{
  lots_of, levels_listed, IsBestFirst, listed_qty, first_price, total_of, depth_lem,
}
use hft_clob_core.Matching.Queue
use hft_clob_core.Matching.Queue.{PlOrder}
use hft_clob_core.Matching.Resting.{add_resting, cancel}
use hft_clob_core.Matching.Modify.{mass_cancel, replace}
use hft_clob_core.Matching.View.{queue_at, same_place}
use hft_clob_core.Matching.Consistency.{IsBook, is_owned}
use hft_clob_core.Matching.Consistency.Leaving.{cancel_lem, cancel-add_resting}
use hft_clob_core.Matching.Consistency.MassCancelling.{ids_in, ids_of_account, mass_cancel_lem}
use hft_clob_core.Matching.Modify.Replacing.{replace-IsBook}
use hft_clob_core.Tests.Fifo.{fifo}
use hft_clob_core.Tests.Books.{fifo_law, two_offers-IsBook, listed}
use hft_clob_core.Tests.Runs.{counter, program, offer, two_offers, session}

first_meta : OrderMeta
first_meta = record { side = ask; price = 100; account_id = 1; tif = gtc }

cancel_lem_example :
    ((cancel 1 two_offers).1 ≡ ok (ask, 100))
    × ((s : Side) (p : Price)
        → queue_at s p (cancel 1 two_offers).0 ≡ (
            if same_place ask 100 s p
            then Queue.remove 1 (queue_at s p two_offers)
            else queue_at s p two_offers))
    × ((j : OrderId)
        → (cancel 1 two_offers).0.index j ≡ (if j == 1 then none else two_offers.index j))
unfolding program two_offers first_meta
cancel_lem_example = cancel_lem 1 first_meta two_offers two_offers-IsBook refl

cancel-add_resting_example :
    let after = cancel 3 (add_resting (offer 3 2 100 4) two_offers).0 in
    (after.1 ≡ ok (ask, 100))
    × ((s : Side) (p : Price) → queue_at s p after.0 ≡ queue_at s p two_offers)
    × ((j : OrderId) → after.0.index j ≡ two_offers.index j)
unfolding program two_offers
cancel-add_resting_example =
    cancel-add_resting (offer 3 2 100 4) two_offers two_offers-IsBook (omega arith) refl

mass_cancel_lem_example :
    let r = mass_cancel 1 (two_offers, []) in
    IsBook r.0
    × ((j : OrderId)
        → r.0.index j ≡ (if is_owned (two_offers.index j) 1 then none else two_offers.index j))
    × (ids_in r.1 ≡ ids_of_account 1 two_offers)
    × BTreeSet.IsAscending (ids_of_account 1 two_offers)
mass_cancel_lem_example = mass_cancel_lem 1 two_offers [] two_offers-IsBook

mass_cancel_ids : ids_in (mass_cancel 1 (two_offers, [])).1 ≡ 1 ∷ 2 ∷ []
unfolding program two_offers
mass_cancel_ids = refl

replace-IsBook_example : IsBook (replace 1 103 9 session).0.book
replace-IsBook_example = replace-IsBook 1 103 9 session two_offers-IsBook listed (omega arith)

depth_lem_example :
    IsBestFirst ask (levels_listed ask two_offers)
    × ((p : Price)
        → listed_qty p (levels_listed ask two_offers) ≡ total_of (queue_at ask p two_offers))
    × ((p : Price) → qty_at_level ask p two_offers ≡ lots_of (queue_at ask p two_offers))
    × (best_of ask two_offers ≡ first_price (levels_listed ask two_offers))
depth_lem_example = depth_lem (λ l. refl) ask two_offers two_offers-IsBook

two_offers_depth : ask_levels two_offers ≡ (100, 5) ∷ (101, 7) ∷ []
unfolding program two_offers Book.with_quantity Book.level_quantity Book.ask_levels
two_offers_depth = refl
