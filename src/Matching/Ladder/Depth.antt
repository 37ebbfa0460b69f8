-- ===== src/Matching/Ladder/Depth.antt =====
-- The depth queries of crates/matching/src/book.rs: `qty_at_level`, `bid_levels` and `ask_levels`.
use mathlib.Core.List.{map-append, reverse-cons}
use hft_clob_core.Prelude.{
  ℕ, ◌≤◌, ◌≡◌, refl, Option, none, some, length, ◌==◌, if◌then◌else◌, ◌∙◌, ap, ap₂, sym, inl, inr,
  true, is_some, Option-cases, List, [], ◌∷◌, ◌++◌, map, reverse, sum_by, arith,
}
use hft_clob_core.Domain.Side.{Side, bid, ask}
use hft_clob_core.Domain.Price.{Price}
use hft_clob_core.Matching.Queue.{PlOrder}
use hft_clob_core.Matching.Level.{PriceLevel, IsPriceLevel}
use hft_clob_core.Matching.Book.{
  Book, Levels, level_at, best_of, level_quantity, with_quantity, qty_at_level, bid_levels,
  ask_levels,
}
use hft_clob_core.Matching.View.{queue_at}
use hft_clob_core.Matching.Consistency.{IsBook}
use hft_clob_core.Matching.Sweep.{Ladder}
use hft_clob_core.Matching.Ladder.{
  Better, AllWorse, IsLadder, lookup_queue, Represents, best_of-Represents_nil, best_of-Represents,
}
use hft_clob_core.Matching.Ladder.Views.{views, ladder, ladder-Represents}

-- The lots of a queue, and a level of the ladder with its lots.
abbrev pub lots_of : List PlOrder → ℕ
lots_of q = sum_by (λ o. o.quantity) q

abbrev pub depth_of : Price × List PlOrder → Price × ℕ
depth_of (p, q) = (p, lots_of q)

-- The levels that the queries list of a side.
abbrev pub levels_listed : {L : Type 0} → ⦃pl : PriceLevel L⦄ → Side → Book L → List (Price × ℕ)
levels_listed bid b = bid_levels b
levels_listed ask b = ask_levels b

-- Strictly from better to worse prices.
abbrev pub AllListedWorse : Side → Price → List (Price × ℕ) → Type 0
AllListedWorse s p [] = Unit {0}
AllListedWorse s p ((k, n) ∷ lv) = Better s p k × AllListedWorse s p lv

abbrev pub IsBestFirst : Side → List (Price × ℕ) → Type 0
IsBestFirst s [] = Unit {0}
IsBestFirst s ((p, n) ∷ lv) = AllListedWorse s p lv × IsBestFirst s lv

-- The quantity listed for a price.
abbrev pub listed_qty : Price → List (Price × ℕ) → Option ℕ
listed_qty p [] = none
listed_qty p ((k, n) ∷ lv) = if k == p then some n else listed_qty p lv

abbrev pub first_price : List (Price × ℕ) → Option Price
first_price [] = none
first_price ((p, n) ∷ lv) = some p

-- The lots of a queue, if there are orders.
abbrev pub total_of : List PlOrder → Option ℕ
total_of [] = none
total_of (o ∷ os) = some (lots_of (o ∷ os))

total_of-some : (q : List PlOrder) → 1 ≤ length q → total_of q ≡ some (lots_of q)
total_of-some [] h = absurd (omega arith)
total_of-some (o ∷ os) h = refl

depth_of-AllListedWorse :
    (s : Side) (p : Price) (lv : Ladder) → AllWorse s p lv → AllListedWorse s p (map depth_of lv)
depth_of-AllListedWorse s p [] h = tt
depth_of-AllListedWorse s p ((k, q) ∷ lv) h = (h.0, depth_of-AllListedWorse s p lv h.1)

depth_of-IsBestFirst : (s : Side) (lv : Ladder) → IsLadder s lv → IsBestFirst s (map depth_of lv)
depth_of-IsBestFirst s [] h = tt
depth_of-IsBestFirst s ((p, q) ∷ lv) h =
    (depth_of-AllListedWorse s p lv h.1, depth_of-IsBestFirst s lv h.2)

listed_qty-depth_of :
    (s : Side) (p : Price) (lv : Ladder)
    → IsLadder s lv
    → listed_qty p (map depth_of lv) ≡ total_of (lookup_queue p lv)
unfolding lookup_queue
listed_qty-depth_of s p [] h = refl
listed_qty-depth_of s p ((k, q) ∷ lv) h =
    ground (arith, total_of-some q h.0, listed_qty-depth_of s p lv h.2)

pub map-reverse :
    {A B : Type 0} → (f : A → B) (xs : List A) → map f (reverse xs) ≡ reverse (map f xs)
map-reverse f [] = refl
map-reverse f (x ∷ xs) =
    ap (map f) (reverse-cons x xs)
    ∙ map-append f (reverse xs) (x ∷ [])
    ∙ ap (λ l. l ++ f x ∷ []) (map-reverse f xs)
    ∙ sym (reverse-cons (f x) (map f xs))

module _ {L : Type 0} ⦃pl : PriceLevel L⦄ ⦃law : IsPriceLevel pl⦄
    (summed : (l : L) → is_some (pl.total_quantity l) ≡ true) where
  level_quantity_lem : (l : L) → level_quantity l ≡ lots_of (law.queue l)
  unfolding level_quantity
  level_quantity_lem l = elim (Option-cases (pl.total_quantity l)) [
    | inl e ↦ absurd (ground (arith, summed l))
    | inr (n, e) ↦ rw e (law.total_quantity_lem l n e)
  ]

  with_quantity-views : (m : Levels L) → map with_quantity m ≡ map depth_of (views m)
  unfolding with_quantity
  with_quantity-views [] = refl
  with_quantity-views ((p, l) ∷ m) =
      ap₂ (λ q rest. (p, q) ∷ rest) (level_quantity_lem l) (with_quantity-views m)

  -- The levels that a side lists are those of its ladder.
  levels_listed-ladder : (s : Side) (b : Book L) → levels_listed s b ≡ map depth_of (ladder s b)
  unfolding bid_levels ask_levels ladder
  levels_listed-ladder bid b =
      map-reverse with_quantity b.bids
      ∙ ap reverse (with_quantity-views b.bids)
      ∙ sym (map-reverse depth_of (views b.bids))
  levels_listed-ladder ask b = with_quantity-views b.asks

  qty_at_level_lem :
      (s : Side) (p : Price) (b : Book L) → qty_at_level s p b ≡ lots_of (queue_at s p b)
  unfolding qty_at_level queue_at
  qty_at_level_lem s p b = elim (Option-cases (level_at s p b)) [
    | inl e ↦ rw (e, qty_at_level) refl
    | inr (l, e) ↦ rw (e, qty_at_level) (level_quantity_lem l)
  ]

  first_price-Represents :
      (s : Side) (b : Book L) (lv : Ladder)
      → IsBook b
      → Represents s b lv
      → best_of s b ≡ first_price (map depth_of lv)
  first_price-Represents s b [] v r =
      best_of-Represents_nil s b (v.consistent.bids_ascend, v.consistent.asks_ascend) v.pruned r
  first_price-Represents s b ((p, q) ∷ lv) v r =
      best_of-Represents s b p q lv (v.consistent.bids_ascend, v.consistent.asks_ascend) v.pruned r

  -- On a well-formed book, when the totals of the levels do not overflow, `bid_levels` and
  -- `ask_levels` list their side strictly from better to worse prices; a price is listed exactly if
  -- orders rest at it, with the lots of its queue, which is also what `qty_at_level` answers; and
  -- the first price listed is `best_bid` or `best_ask`.
  pub depth_lem :
      (s : Side) (b : Book L)
      → IsBook b
      → IsBestFirst s (levels_listed s b)
        × ((p : Price) → listed_qty p (levels_listed s b) ≡ total_of (queue_at s p b))
        × ((p : Price) → qty_at_level s p b ≡ lots_of (queue_at s p b))
        × (best_of s b ≡ first_price (levels_listed s b))
  depth_lem s b v =
      let r = ladder-Represents s b v in
      rw (levels_listed-ladder s b) (
        depth_of-IsBestFirst s (ladder s b) r.is_ladder,
        λ p. listed_qty-depth_of s p (ladder s b) r.is_ladder ∙ ap total_of (sym (r.same p)),
        λ p. qty_at_level_lem s p b,
        first_price-Represents s b (ladder s b) v r,
      )
