-- ===== src/Matching/Ladder/Views.antt =====
-- The ladder of a side, made from the levels of the book.
use mathlib.Core.List.{reverse-cons}
use hft_clob_core.Prelude.{
  suc, ◌≤◌, ◌<◌, ◌≡◌, refl, ◌∙◌, ap, sym, List, [], ◌∷◌, ◌++◌, reverse, ◌==◌, if◌then◌else◌, arith,
  length, length-reverse,
}
use hft_clob_core.Collections.BTreeMap
use hft_clob_core.Domain.Side.{Side, bid, ask}
use hft_clob_core.Domain.Price.{Price}
use hft_clob_core.Matching.Queue.{PlOrder}
use hft_clob_core.Matching.Level.{PriceLevel, IsPriceLevel}
use hft_clob_core.Matching.Book.{Book, Levels, levels_of}
use hft_clob_core.Matching.View.{queue_of, queue_at}
use hft_clob_core.Matching.Consistency.{HasOrders, IsBook}
use hft_clob_core.Matching.Sweep.{Ladder}
use hft_clob_core.Matching.Ladder.{AllWorse, IsLadder, lookup_queue, Represents}

-- What is needed to turn a ladder upside down: a level of a lower price is appended at its end.
abbrev PricesAbove : Price → Ladder → Type 0
PricesAbove k [] = Unit {0}
PricesAbove k ((p, q) ∷ lv) = (k < p) × PricesAbove k lv

PricesAbove-append :
    (k p : Price) (q : List PlOrder) (lv : Ladder)
    → k < p
    → PricesAbove k lv
    → PricesAbove k (lv ++ (p, q) ∷ [])
PricesAbove-append k p q [] h a = (h, tt)
PricesAbove-append k p q ((i, r) ∷ lv) h a = (a.0, PricesAbove-append k p q lv h a.1)

lookup_queue-append :
    (p k : Price) (q : List PlOrder) (lv : Ladder)
    → PricesAbove k lv
    → lookup_queue p (lv ++ (k, q) ∷ []) ≡ (if k == p then q else lookup_queue p lv)
unfolding lookup_queue
lookup_queue-append p k q [] h = refl
lookup_queue-append p k q ((i, r) ∷ lv) h = ground (arith, lookup_queue-append p k q lv h.1)

AllWorse-append :
    (p k : Price) (q : List PlOrder) (lv : Ladder)
    → k < p
    → AllWorse bid p lv
    → AllWorse bid p (lv ++ (k, q) ∷ [])
AllWorse-append p k q [] h a = (h, tt)
AllWorse-append p k q ((i, r) ∷ lv) h a = (a.0, AllWorse-append p k q lv h a.1)

IsLadder-append :
    (k : Price) (q : List PlOrder) (lv : Ladder)
    → 1 ≤ length q
    → PricesAbove k lv
    → IsLadder bid lv
    → IsLadder bid (lv ++ (k, q) ∷ [])
IsLadder-append k q [] h a v = (h, tt, tt)
IsLadder-append k q ((i, r) ∷ lv) h a v =
    (v.0, AllWorse-append i k q lv a.0 v.1, IsLadder-append k q lv h a.1 v.2)

module _ {L : Type 0} ⦃pl : PriceLevel L⦄ ⦃law : IsPriceLevel pl⦄ where
  -- The levels of a map as a ladder.
  abbrev pub views : Levels L → Ladder
  views [] = []
  views ((p, l) ∷ m) = (p, law.queue l) ∷ views m

  -- The side of a book, best price first.
  unfoldable pub ladder : Side → Book L → Ladder
  ladder bid b = reverse (views b.bids)
  ladder ask b = views b.asks

  -- Every level of the map holds orders.
  abbrev AllFull : Levels L → Type 0
  AllFull [] = Unit {0}
  AllFull ((p, l) ∷ m) = (1 ≤ length (law.queue l)) × AllFull m

  AllFull-get :
      (m : Levels L)
      → BTreeMap.IsAscending m
      → ((p : Price) → HasOrders (BTreeMap.get p m))
      → AllFull m
  unfolding BTreeMap.get
  AllFull-get [] a h = tt
  AllFull-get ((p, l) ∷ m) a h = (
    ground (arith, h p),
    AllFull-get m a.1 λ k. ground (arith, h k, BTreeMap.get-Above k p m a.0),
  )

  AllWorse-views : (p : Price) (m : Levels L) → BTreeMap.Above p m → AllWorse ask p (views m)
  AllWorse-views p [] a = tt
  AllWorse-views p ((k, l) ∷ m) a = (a.0, AllWorse-views p m a.1)

  views-IsLadder : (m : Levels L) → BTreeMap.IsAscending m → AllFull m → IsLadder ask (views m)
  views-IsLadder [] a h = tt
  views-IsLadder ((p, l) ∷ m) a h = (h.0, AllWorse-views p m a.0, views-IsLadder m a.1 h.1)

  lookup_queue-views :
      (p : Price) (m : Levels L) → lookup_queue p (views m) ≡ queue_of (BTreeMap.get p m)
  unfolding lookup_queue BTreeMap.get
  lookup_queue-views p [] = refl
  lookup_queue-views p ((k, l) ∷ m) = ground (arith, lookup_queue-views p m)

  PricesAbove-views :
      (k : Price) (m : Levels L) → BTreeMap.Above k m → PricesAbove k (reverse (views m))
  PricesAbove-views k [] a = tt
  PricesAbove-views k ((p, l) ∷ m) a =
      rw (reverse-cons (p, law.queue l) (views m))
        (PricesAbove-append k p (law.queue l) (reverse (views m)) a.0 (PricesAbove-views k m a.1))

  reverse-views-IsLadder :
      (m : Levels L) → BTreeMap.IsAscending m → AllFull m → IsLadder bid (reverse (views m))
  reverse-views-IsLadder [] a h = tt
  reverse-views-IsLadder ((p, l) ∷ m) a h = rw (reverse-cons (p, law.queue l) (views m)) (
      IsLadder-append p (law.queue l) (reverse (views m)) h.0 (PricesAbove-views p m a.0)
        (reverse-views-IsLadder m a.1 h.1))

  lookup_queue-reverse-views :
      (p : Price) (m : Levels L)
      → BTreeMap.IsAscending m
      → lookup_queue p (reverse (views m)) ≡ queue_of (BTreeMap.get p m)
  unfolding lookup_queue BTreeMap.get
  lookup_queue-reverse-views p [] a = refl
  lookup_queue-reverse-views p ((k, l) ∷ m) a =
      ap (lookup_queue p) (reverse-cons (k, law.queue l) (views m))
      ∙ lookup_queue-append p k (law.queue l) (reverse (views m)) (PricesAbove-views k m a.0)
      ∙ ground (arith, lookup_queue-reverse-views p m a.1)

  -- The ladder of a side shows it.
  pub ladder-Represents : (s : Side) (b : Book L) → IsBook b → Represents s b (ladder s b)
  unfolding ladder queue_at
  ladder-Represents bid b v = record {
    is_ladder =
        reverse-views-IsLadder b.bids v.consistent.bids_ascend
          (AllFull-get b.bids v.consistent.bids_ascend (v.pruned bid));
    same = λ p. sym (lookup_queue-reverse-views p b.bids v.consistent.bids_ascend);
  }
  ladder-Represents ask b v = record {
    is_ladder =
        views-IsLadder b.asks v.consistent.asks_ascend
          (AllFull-get b.asks v.consistent.asks_ascend (v.pruned ask));
    same = λ p. sym (lookup_queue-views p b.asks);
  }

  length-views : (m : Levels L) → length (views m) ≡ length m
  length-views [] = refl
  length-views ((p, l) ∷ m) = ap suc (length-views m)

  -- It has as many levels as the map: the fuel of the walk is enough for it.
  pub length-ladder : (s : Side) (b : Book L) → length (ladder s b) ≡ length (levels_of s b)
  unfolding ladder
  length-ladder bid b = length-reverse (views b.bids) ∙ length-views b.bids
  length-ladder ask b = length-views b.asks
