-- ===== src/Matching/Ladder.antt =====
-- One side of the book as a ladder: its levels, best price first, each with its queue.
pub mod Views
pub mod Depth
use mathlib.Core.List.{reverse-cons}
use hft_clob_core.Prelude.{
  ℕ, suc, ◌≤◌, ◌<◌, ◌≡◌, refl, ◌∙◌, ap, sym, ◌≢◌, inl, inr, false, List, [], ◌∷◌, ◌++◌, reverse,
  none, some, Option-cases, Bool-cases, ◌==◌, if◌then◌else◌, arith, length, length-reverse,
}
use hft_clob_core.Collections.BTreeMap
use hft_clob_core.Domain.Side.{Side, bid, ask}
use hft_clob_core.Domain.Price.{Price}
use hft_clob_core.Matching.Queue.{PlOrder}
use hft_clob_core.Matching.Level.{PriceLevel, IsPriceLevel}
use hft_clob_core.Matching.Book.{Book, Levels, level_at, levels_of, best_of, best_bid, best_ask}
use hft_clob_core.Matching.View.{queue_of, queue_at}
use hft_clob_core.Matching.Consistency.{HasOrders, IsPruned, IsBook}
use hft_clob_core.Matching.Sweep.{Ladder}

-- `a` is a better price than `b` for an order resting on the side.
abbrev pub Better : Side → Price → Price → Type 0
Better bid a b = b < a
Better ask a b = a < b

abbrev pub AllWorse : Side → Price → Ladder → Type 0
AllWorse s p [] = Unit {0}
AllWorse s p ((p', q) ∷ lv) = Better s p p' × AllWorse s p lv

-- Strictly from better to worse prices, and without an empty level.
abbrev pub IsLadder : Side → Ladder → Type 0
IsLadder s [] = Unit {0}
IsLadder s ((p, q) ∷ lv) = (1 ≤ length q) × AllWorse s p lv × IsLadder s lv

unfoldable pub lookup_queue : Price → Ladder → List PlOrder
lookup_queue p [] = []
lookup_queue p ((p', q) ∷ lv) = if p' == p then q else lookup_queue p lv

pub lookup_queue-AllWorse :
    (s : Side) (p k : Price) (lv : Ladder)
    → AllWorse s p lv
    → 1 ≤ length (lookup_queue k lv)
    → Better s p k
unfolding lookup_queue
lookup_queue-AllWorse s p k [] a h = absurd (omega arith)
lookup_queue-AllWorse bid p k ((p', q) ∷ lv) a h =
    ground (arith, lookup_queue-AllWorse bid p k lv a.1)
lookup_queue-AllWorse ask p k ((p', q) ∷ lv) a h =
    ground (arith, lookup_queue-AllWorse ask p k lv a.1)

module _ {V : Type 0} where
  first_key_lem :
      (m : List (ℕ × V)) (k : ℕ)
      → BTreeMap.IsAscending m
      → BTreeMap.first_key m ≡ some k
      → ((v : V) × (BTreeMap.get k m ≡ some v))
        × ((j : ℕ) (v : V) → BTreeMap.get j m ≡ some v → k ≤ j)
  unfolding BTreeMap.first_key BTreeMap.get
  first_key_lem [] k a h = cc
  first_key_lem ((i, w) ∷ m) k a h =
      ((w, ground arith), λ j v e. ground (arith, get_bound j i m a.0))
    where
      get_bound :
          (j i : ℕ) (m : List (ℕ × V)) → BTreeMap.Above i m → j < i → BTreeMap.get j m ≡ none
      get_bound j i m a h = BTreeMap.get-Above j i m a (omega arith)

  last_key_lem :
      (m : List (ℕ × V)) (k : ℕ)
      → BTreeMap.IsAscending m
      → BTreeMap.last_key m ≡ some k
      → ((v : V) × (BTreeMap.get k m ≡ some v))
        × ((j : ℕ) (v : V) → BTreeMap.get j m ≡ some v → j ≤ k)
  unfolding BTreeMap.last_key BTreeMap.get
  last_key_lem [] k a h = cc
  last_key_lem ((i, w) ∷ []) k a h = ((w, ground arith), λ j v e. ground arith)
  last_key_lem ((i, w) ∷ (i', w') ∷ m) k a h =
      let ((v, there), bound) = last_key_lem ((i', w') ∷ m) k a.1 h in
      ((v, ground (arith, there, bound i' w')), λ j u e. ground (arith, bound j u, bound i' w'))

  first_key-none : (m : List (ℕ × V)) → BTreeMap.first_key m ≡ none → m ≡ []
  unfolding BTreeMap.first_key
  first_key-none [] h = refl
  first_key-none ((i, w) ∷ m) h = cc

  last_key-none : (m : List (ℕ × V)) → BTreeMap.last_key m ≡ none → m ≡ []
  unfolding BTreeMap.last_key
  last_key-none [] h = refl
  last_key-none ((i, w) ∷ []) h = cc
  last_key-none ((i, w) ∷ e ∷ m) h = absurd (cons-ne-nil (last_key-none (e ∷ m) h))
    where
      cons-ne-nil : (e ∷ m) ≢ []
      cons-ne-nil h = cc

module _ {L : Type 0} where
  abbrev pub SidesAscend : Book L → Type 0
  SidesAscend b = BTreeMap.IsAscending b.bids × BTreeMap.IsAscending b.asks

  -- The best price has a level, and no level is better.
  pub best_of-some :
      (s : Side) (b : Book L) (k : Price)
      → SidesAscend b
      → best_of s b ≡ some k
      → ((l : L) × (level_at s k b ≡ some l))
        × ((j : Price) (l : L) → level_at s j b ≡ some l → ¬ Better s j k)
  unfolding best_bid best_ask
  best_of-some bid b k a h =
      let (there, bound) = last_key_lem b.bids k a.0 h in
      (there, λ j l e x. omega (arith, bound j l e))
  best_of-some ask b k a h =
      let (there, bound) = first_key_lem b.asks k a.1 h in
      (there, λ j l e x. omega (arith, bound j l e))

  pub best_of-none :
      (s : Side) (b : Book L) → best_of s b ≡ none → (j : Price) → level_at s j b ≡ none
  unfolding best_bid best_ask BTreeMap.get
  best_of-none bid b h j = rw (last_key-none b.bids h)
  best_of-none ask b h j = rw (first_key-none b.asks h)

module _ {L : Type 0} ⦃pl : PriceLevel L⦄ ⦃law : IsPriceLevel pl⦄ where
  -- The ladder `lv` shows one side of the book.
  pub record Represents (s : Side) (b : Book L) (lv : Ladder) : Type 0 where
    pub is_ladder : IsLadder s lv
    pub same : (p : Price) → queue_at s p b ≡ lookup_queue p lv

  -- A side with an empty ladder has no best price; else its best price is the ladder's first.
  pub best_of-Represents_nil :
      (s : Side) (b : Book L) → SidesAscend b → IsPruned b → Represents s b [] → best_of s b ≡ none
  unfolding queue_at lookup_queue
  best_of-Represents_nil s b a h r = elim (Option-cases (best_of s b)) [
    | inl e ↦ e
    | inr (k, e) ↦
        let ((l, there), bound) = best_of-some s b k a e in
        absurd (ground (arith, h s k, r.same k, there))
  ]

  module _ (s : Side) (b : Book L) (p : Price) (q : List PlOrder) (lv : Ladder) (a : SidesAscend b)
      (h : IsPruned b) (r : Represents s b ((p, q) ∷ lv)) where
    pub first_level : (l : L) × (level_at s p b ≡ some l) × (law.queue l ≡ q)
    unfolding queue_at lookup_queue
    first_level = elim (Option-cases (level_at s p b)) [
      | inl e ↦ absurd (ground (arith, r.same p, e))
      | inr (l, e) ↦ (l, e, ground (arith, r.same p, e))
    ]

    beyond_first : (k : Price) (l : L) → level_at s k b ≡ some l → (p == k) ≡ false → Better s p k
    unfolding queue_at lookup_queue
    beyond_first k l e ne =
        let orders : HasOrders (some l) = rw e at (h s k) in
        lookup_queue-AllWorse s p k lv r.is_ladder.1 (ground (arith, r.same k, e))

    pub best_of-Represents : best_of s b ≡ some p
    best_of-Represents = elim (Option-cases (best_of s b)) [
      | inl e ↦ let (l, there, _) = first_level in cc (there, best_of-none s b e p)
      | inr (k, e) ↦
          let ((l', there'), bound) = best_of-some s b k a e in
          let (l, there, _) = first_level in
          elim (Bool-cases (p == k)) [
            | inl same ↦ ground (arith, e)
            | inr ne ↦ absurd (bound p l there (beyond_first k l' there' ne))
          ]
    ]
