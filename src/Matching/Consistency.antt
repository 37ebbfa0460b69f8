-- ===== src/Matching/Consistency.antt =====
-- The invariant of the book of crates/matching/src/book.rs: the price index, the sidecar and the
-- account index tell one story.
pub mod Removing
pub mod Pruning
pub mod Cancelling
pub mod Reducing
pub mod Entering
pub mod Adding
pub mod Leaving
pub mod MassCancelling
use hft_clob_core.Prelude.{
  ℕ, ◌≤◌, ◌≡◌, refl, Bool, true, false, ◌&&◌, List, [], ◌∷◌, Option, none, some, ◌==◌, length,
}
use hft_clob_core.Collections.BTreeMap
use hft_clob_core.Collections.BTreeSet
use hft_clob_core.Domain.Side.{Side, bid, ask}
use hft_clob_core.Domain.Price.{Price}
use hft_clob_core.Domain.OrderId.{OrderId}
use hft_clob_core.Domain.AccountId.{AccountId}
use hft_clob_core.Matching.Types.{OrderMeta}
use hft_clob_core.Matching.Queue
use hft_clob_core.Matching.Queue.{IsQueue}
use hft_clob_core.Matching.Level.{PriceLevel, IsPriceLevel}
use hft_clob_core.Matching.Book.{Book, level_at, empty_book}
use hft_clob_core.Matching.View.{same_place, queue_at}

-- Does the sidecar place the order there, and with that account?
abbrev pub is_placed : Option OrderMeta → Side → Price → Bool
is_placed none s p = false
is_placed (some m) s p = same_place m.side m.price s p

abbrev pub is_owned : Option OrderMeta → AccountId → Bool
is_owned none a = false
is_owned (some m) a = m.account_id == a

abbrev pub in_set : Option (List ℕ) → OrderId → Bool
in_set none i = false
in_set (some s) i = BTreeSet.contains i s

abbrev pub IsAccountSet : Option (List ℕ) → Type 0
IsAccountSet none = Unit {0}
IsAccountSet (some s) = BTreeSet.IsAscending s × (BTreeSet.is_empty s ≡ false)

module _ {L : Type 0} ⦃pl : PriceLevel L⦄ ⦃law : IsPriceLevel pl⦄ where
  pub record IsConsistent (b : Book L) : Type 0 where
    pub bids_ascend : BTreeMap.IsAscending b.bids
    pub asks_ascend : BTreeMap.IsAscending b.asks
    pub queues : (s : Side) (p : Price) → IsQueue b.seq (queue_at s p b)
    pub located :
        (s : Side) (p : Price) (i : OrderId)
        → Queue.has i (queue_at s p b) ≡ is_placed (b.index i) s p
    pub owned : (a : AccountId) (i : OrderId) → in_set (b.by_account a) i ≡ is_owned (b.index i) a
    pub account_sets : (a : AccountId) → IsAccountSet (b.by_account a)

  abbrev pub HasOrders : Option L → Type 0
  HasOrders none = Unit {0}
  HasOrders (some l) = 1 ≤ length (law.queue l)

  -- No level of the price index is empty.
  abbrev pub IsPruned : Book L → Type 0
  IsPruned b = (s : Side) (p : Price) → HasOrders (level_at s p b)

  -- The same, but for one level, from which an order has just been taken.
  abbrev pub IsPrunedBut : Side → Price → Book L → Type 0
  IsPrunedBut s p b =
      (s' : Side) (p' : Price) → same_place s p s' p' ≡ false → HasOrders (level_at s' p' b)

  -- The invariant of the book between two calls.
  pub record IsBook (b : Book L) : Type 0 where
    pub consistent : IsConsistent b
    pub pruned : IsPruned b

  -- The book of `Book::new`.
  pub empty_book-IsBook : IsBook empty_book
  unfolding queue_at BTreeMap.get Queue.has
  empty_book-IsBook = record {
    consistent = record {
      bids_ascend = tt;
      asks_ascend = tt;
      queues = elim [ bid ↦ λ p. tt | ask ↦ λ p. tt ];
      located = elim [ bid ↦ λ p i. refl | ask ↦ λ p i. refl ];
      owned = λ a i. refl;
      account_sets = λ a. tt;
    };
    pruned = elim [ bid ↦ λ p. tt | ask ↦ λ p. tt ];
  }
