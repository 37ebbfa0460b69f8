-- ===== src/Engine/Mirror/Capturing.antt =====
-- `capture_levels_into` of crates/engine/src/engine.rs lists the levels of the book in order.
use mathlib.Core.List.{reverse-reverse}
use hft_clob_core.Prelude.{
  ℕ, ◌≡◌, refl, ◌∙◌, sym, ap, subst, Bool-cases, inl, inr, false, [], ◌∷◌, ◌++◌, map, reverse,
  Option, none, some, Option-cases, if◌then◌else◌, arith,
}
use hft_clob_core.Collections.BTreeMap
use hft_clob_core.Domain.Side
use hft_clob_core.Domain.Side.{Side, bid, ask}
use hft_clob_core.Domain.Price.{Price}
use hft_clob_core.Matching.Level.{PriceLevel}
use hft_clob_core.Matching.Book.{
  Book, Levels, level_quantity, with_quantity, bid_levels, ask_levels, qty_at_level, levels_of,
}
use hft_clob_core.Matching.Ladder.{SidesAscend}
use hft_clob_core.Matching.Ladder.Depth.{map-reverse}
use hft_clob_core.Engine.Deltas.{StepLevels, tagged, key_before, capture_levels}
use hft_clob_core.Engine.Mirror.{lookup, has_level}
use hft_clob_core.Engine.Mirror.Merging.{AllAfter, IsSorted, lookup-absent}

lookup-append :
    (xs ys : StepLevels) (s : Side) (p : Price)
    → lookup (xs ++ ys) s p ≡ (if has_level xs s p then lookup xs s p else lookup ys s p)
unfolding lookup has_level
lookup-append [] ys s p = refl
lookup-append ((s', p', n) ∷ xs) ys s p = ground (arith, lookup-append xs ys s p)

AllAfter-append :
    (s : Side) (p : Price) (xs ys : StepLevels)
    → AllAfter s p xs
    → AllAfter s p ys
    → AllAfter s p (xs ++ ys)
AllAfter-append s p [] ys a b = b
AllAfter-append s p ((s', p', n) ∷ xs) ys a b = (a.0, AllAfter-append s p xs ys a.1 b)

module _ {L : Type 0} ⦃pl : PriceLevel L⦄ where
  -- The levels of one side by ascending price.
  abbrev side_list : Side → Levels L → StepLevels
  side_list s m = map (tagged s) (map with_quantity m)

  capture_levels_lem :
      (b : Book L) → capture_levels b ≡ side_list bid b.bids ++ side_list ask b.asks
  unfolding capture_levels bid_levels ask_levels
  capture_levels_lem b =
      ap (λ x. x ++ side_list ask b.asks)
        (sym (map-reverse (tagged bid) (map with_quantity (reverse b.bids)))
          ∙ ap (map (tagged bid)) (
              sym (map-reverse with_quantity (reverse b.bids))
              ∙ ap (map with_quantity) (reverse-reverse b.bids)))

  quantity_in : Option L → ℕ
  quantity_in none = 0
  quantity_in (some l) = level_quantity l

  same_side_lookup :
      (s : Side) (p : Price) (m : Levels L)
      → lookup (side_list s m) s p ≡ quantity_in (BTreeMap.get p m)
  unfolding lookup with_quantity tagged BTreeMap.get quantity_in
  same_side_lookup s p [] = refl
  same_side_lookup bid p ((k, l) ∷ m) = ground (arith, same_side_lookup bid p m)
  same_side_lookup ask p ((k, l) ∷ m) = ground (arith, same_side_lookup ask p m)

  other_side :
      (s : Side) (p : Price) (m : Levels L)
      → (has_level (side_list (Side.opposite s) m) s p ≡ false)
        × (lookup (side_list (Side.opposite s) m) s p ≡ 0)
  unfolding lookup has_level with_quantity tagged Side.opposite
  other_side s p [] = (refl, refl)
  other_side bid p ((k, l) ∷ m) = other_side bid p m
  other_side ask p ((k, l) ∷ m) = other_side ask p m

  qty_at_level-quantity_in :
      (s : Side) (p : Price) (b : Book L)
      → qty_at_level s p b ≡ quantity_in (BTreeMap.get p (levels_of s b))
  unfolding qty_at_level quantity_in
  qty_at_level-quantity_in bid p b = elim (Option-cases (BTreeMap.get p b.bids)) [
    | inl e ↦ rw (e, qty_at_level) refl
    | inr (l, e) ↦ rw (e, qty_at_level) refl
  ]
  qty_at_level-quantity_in ask p b = elim (Option-cases (BTreeMap.get p b.asks)) [
    | inl e ↦ rw (e, qty_at_level) refl
    | inr (l, e) ↦ rw (e, qty_at_level) refl
  ]

  -- The captured levels list for each place what the book has there.
  pub lookup-capture_levels :
      (b : Book L) (s : Side) (p : Price) → lookup (capture_levels b) s p ≡ qty_at_level s p b
  unfolding Side.opposite
  lookup-capture_levels b bid p =
      ap (λ lv. lookup lv bid p) (capture_levels_lem b)
      ∙ lookup-append (side_list bid b.bids) (side_list ask b.asks) bid p
      ∙ elim (Bool-cases (has_level (side_list bid b.bids) bid p)) [
        | inl h ↦ rw h (same_side_lookup bid p b.bids ∙ sym (qty_at_level-quantity_in bid p b))
        | inr h ↦ rw h (
            (other_side bid p b.asks).1
            ∙ sym (lookup-absent (side_list bid b.bids) bid p h)
            ∙ same_side_lookup bid p b.bids
            ∙ sym (qty_at_level-quantity_in bid p b))
      ]
  lookup-capture_levels b ask p =
      ap (λ lv. lookup lv ask p) (capture_levels_lem b)
      ∙ lookup-append (side_list bid b.bids) (side_list ask b.asks) ask p
      ∙ rw (other_side ask p b.bids).0
          (same_side_lookup ask p b.asks ∙ sym (qty_at_level-quantity_in ask p b))

  AllAfter-side_list :
      (s : Side) (k : Price) (m : Levels L) → BTreeMap.Above k m → AllAfter s k (side_list s m)
  unfolding tagged with_quantity key_before Side.as_u8
  AllAfter-side_list s k [] a = tt
  AllAfter-side_list bid k ((j, l) ∷ m) a = (ground arith, AllAfter-side_list bid k m a.1)
  AllAfter-side_list ask k ((j, l) ∷ m) a = (ground arith, AllAfter-side_list ask k m a.1)

  asks_after : (k : Price) (m : Levels L) → AllAfter bid k (side_list ask m)
  unfolding tagged with_quantity key_before Side.as_u8
  asks_after k [] = tt
  asks_after k ((j, l) ∷ m) = (refl, asks_after k m)

  side_list-IsSorted : (s : Side) (m : Levels L) → BTreeMap.IsAscending m → IsSorted (side_list s m)
  unfolding tagged with_quantity
  side_list-IsSorted s [] a = tt
  side_list-IsSorted s ((k, l) ∷ m) a = (AllAfter-side_list s k m a.0, side_list-IsSorted s m a.1)

  both_sides-IsSorted :
      (m m' : Levels L)
      → BTreeMap.IsAscending m
      → BTreeMap.IsAscending m'
      → IsSorted (side_list bid m ++ side_list ask m')
  unfolding tagged with_quantity
  both_sides-IsSorted [] m' a b = side_list-IsSorted ask m' b
  both_sides-IsSorted ((k, l) ∷ m) m' a b = (
    AllAfter-append bid k (side_list bid m) (side_list ask m') (AllAfter-side_list bid k m a.0)
        (asks_after k m'),
    both_sides-IsSorted m m' a.1 b,
  )

  -- In the order of their keys.
  pub capture_levels-IsSorted : (b : Book L) → SidesAscend b → IsSorted (capture_levels b)
  capture_levels-IsSorted b a =
      subst IsSorted (sym (capture_levels_lem b)) (both_sides-IsSorted b.bids b.asks a.0 a.1)
