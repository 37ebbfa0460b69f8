-- ===== src/Matching/Walk/Guarantees.antt =====
-- What every call of `Book::match_aggressive` guarantees.
use hft_clob_core.Prelude.{
  ℕ, ◌+◌, ◌≤◌, ◌≡◌, refl, ◌∙◌, ap, sym, inl, inr, Bool, true, false, List, [], ◌∷◌, ◌++◌, map,
  append-nil, Option, none, some, Bool-cases, is_some, get_or, to_option, arith, All, sum_by,
  sum_by-append,
}
use hft_clob_core.Domain.Side
use hft_clob_core.Domain.Side.{Side, bid, ask}
use hft_clob_core.Domain.Qty
use hft_clob_core.Domain.Qty.{Qty}
use hft_clob_core.Domain.Price.{Price}
use hft_clob_core.Domain.OrderId.{OrderId}
use hft_clob_core.Matching.Types.{AggressiveOrder, Fill, IdGenerator}
use hft_clob_core.Matching.Level.{PriceLevel, IsPriceLevel}
use hft_clob_core.Matching.Book.{Book, would_cross, crosses_best, best_of}
use hft_clob_core.Matching.Consistency.{IsBook}
use hft_clob_core.Matching.Ladder.{Represents, best_of-Represents, best_of-Represents_nil}
use hft_clob_core.Matching.Ladder.Views.{ladder}
use hft_clob_core.Matching.Sweep.{Trade, Ladder}
use hft_clob_core.Matching.Sweep.Laws.{
  traded, IsAllowed, IsBeyond, IsPrefix, makers, by_priority, sweep-conserves, sweep-IsAllowed,
  sweep-IsBeyond, sweep_in_priority,
}
use hft_clob_core.Matching.Walk.{Session, crosses_limit, match_aggressive}
use hft_clob_core.Matching.Walk.Stamps.{issued}
use hft_clob_core.Matching.Walk.Answer.{
  own_orders, refused, sweep_of, match_aggressive-Sweeps, match_aggressive-refused,
}

abbrev pub filled : List Fill → ℕ
filled fs = sum_by (λ f. f.qty) fs

lots_left : (r : ℕ) → get_or (to_option (Qty.new r)) 0 ≡ r
unfolding Qty.new
lots_left r = ground arith

lots_positive : (r : ℕ) → is_some (to_option (Qty.new r)) ≡ true → 1 ≤ r
unfolding Qty.new
lots_positive r h = ground arith

-- A fill within the limit of the taker, against an order of another account.
abbrev pub IsAllowedFill : AggressiveOrder → (OrderId → Bool) → Fill → Type 0
IsAllowedFill taker own f =
    (own f.maker_order_id ≡ false) × (crosses_limit taker.side taker.price f.price ≡ true)

module _ {G : Type 0} ⦃gen : IdGenerator G⦄ where
  filled-issued :
      (taker : AggressiveOrder) (g : G) (ts : List Trade) → filled (issued taker g ts) ≡ traded ts
  unfolding issued
  filled-issued taker g [] = refl
  filled-issued taker g (t ∷ ts) = rw (filled-issued taker (gen.next_trade_id g).1 ts) refl

  issued-IsAllowedFill :
      (taker : AggressiveOrder) (own : OrderId → Bool) (g : G) (ts : List Trade)
      → All (IsAllowed own (crosses_limit taker.side taker.price)) ts
      → All (IsAllowedFill taker own) (issued taker g ts)
  unfolding issued
  issued-IsAllowedFill taker own g [] h = tt
  issued-IsAllowedFill taker own g (t ∷ ts) h =
      (h.0, issued-IsAllowedFill taker own (gen.next_trade_id g).1 ts h.1)

  makers-issued :
      (taker : AggressiveOrder) (g : G) (ts : List Trade)
      → map (λ f. f.maker_order_id) (issued taker g ts) ≡ makers ts
  unfolding issued
  makers-issued taker g [] = refl
  makers-issued taker g (t ∷ ts) = ap (◌∷◌ t.maker) (makers-issued taker (gen.next_trade_id g).1 ts)

module _ {L : Type 0} where
  would_cross_best :
      (side : Side) (limit : Option Price) (b : Book L)
      → would_cross side limit b ≡ crosses_best side limit (best_of (Side.opposite side) b)
  unfolding would_cross Side.opposite
  would_cross_best bid limit b = refl
  would_cross_best ask limit b = refl

crosses_best-some :
    (side : Side) (limit : Option Price) (p : Price)
    → crosses_best side limit (some p) ≡ crosses_limit side limit p
unfolding crosses_best
crosses_best-some side none p = refl
crosses_best-some side (some l) p = refl

crosses_best-none : (side : Side) (limit : Option Price) → crosses_best side limit none ≡ false
unfolding crosses_best
crosses_best-none side none = refl
crosses_best-none side (some l) = refl

module _ {L : Type 0} ⦃pl : PriceLevel L⦄ ⦃law : IsPriceLevel pl⦄ where
  -- A book of which one side shows a ladder beyond the limit does not cross it.
  would_cross_beyond :
      (side : Side) (limit : Option Price) (b : Book L) (lv : Ladder)
      → IsBook b
      → Represents (Side.opposite side) b lv
      → IsBeyond (crosses_limit side limit) lv
      → would_cross side limit b ≡ false
  would_cross_beyond side limit b [] v r h =
      would_cross_best side limit b
      ∙ rw
          (best_of-Represents_nil _ b (v.consistent.bids_ascend, v.consistent.asks_ascend) v.pruned
            r)
          (crosses_best-none side limit)
  would_cross_beyond side limit b ((p, q) ∷ lv) v r h =
      would_cross_best side limit b
      ∙ rw
          (best_of-Represents _ b p q lv (v.consistent.bids_ascend, v.consistent.asks_ascend)
            v.pruned r)
          (crosses_best-some side limit p ∙ h)

module _ {L G : Type 0} ⦃pl : PriceLevel L⦄ ⦃law : IsPriceLevel pl⦄ ⦃gen : IdGenerator G⦄ where
  module _ (taker : AggressiveOrder) (s : Session L G) (v : IsBook s.book)
      (listed : (l : L) → is_some (pl.snapshot_orders l) ≡ true) where
    -- A well-formed book stays well formed, whether the order is refused or not, when the listing
    -- of a level does not fail.
    pub match_aggressive-IsBook : IsBook (match_aggressive taker s).0.book
    match_aggressive-IsBook = elim (Bool-cases (refused taker s.book)) [
      | inl h ↦ rw (match_aggressive-refused taker s h) v
      | inr h ↦ (match_aggressive-Sweeps taker s v listed h).is_book
    ]

    -- On a well-formed book, when the listing of a level does not fail, no lot is made or lost: what the fills of the call trade and what it answers as the rest of
    -- the taker are together the quantity of the order.
    pub match_aggressive-conserves :
        filled (match_aggressive taker s).0.out_fills
          + get_or (match_aggressive taker s).1.taker_remaining 0
        ≡ filled s.out_fills + taker.qty
    match_aggressive-conserves = elim (Bool-cases (refused taker s.book)) [
      | inl h ↦ rw (match_aggressive-refused taker s h) refl
      | inr h ↦
          let d = sweep_of taker s.book in
          let m = match_aggressive-Sweeps taker s v listed h in
          rw
            (
              m.fills,
              m.remaining,
              lots_left d.rest,
              sum_by-append (λ f. f.qty) s.out_fills (issued taker s.ids d.trades),
              filled-issued taker s.ids d.trades,
            )
            (omega (
              arith,
              sweep-conserves (own_orders taker.account_id s.book)
                  (crosses_limit taker.side taker.price) (ladder (Side.opposite taker.side) s.book)
                  taker.qty,
            ))
    ]

    -- On a well-formed book, when the listing of a level does not fail, the call only appends to
    -- the fills. Each fill it appends is at a price within the taker's
    -- limit and with an order of another account, and the orders it fills are the first of the
    -- other side by price and then by time.
    pub match_aggressive_fills :
        (new : List Fill) × ((match_aggressive taker s).0.out_fills ≡ s.out_fills ++ new)
        × All (IsAllowedFill taker (own_orders taker.account_id s.book)) new
        × IsPrefix
            (map (λ f. f.maker_order_id) new)
            (by_priority (ladder (Side.opposite taker.side) s.book))
    match_aggressive_fills = elim (Bool-cases (refused taker s.book)) [
      | inl h ↦ ([], rw (match_aggressive-refused taker s h) (sym (append-nil _)), tt, (_, refl))
      | inr h ↦
          let d = sweep_of taker s.book in
          let m = match_aggressive-Sweeps taker s v listed h in
          (
            issued taker s.ids d.trades,
            m.fills,
            issued-IsAllowedFill taker _ s.ids d.trades (sweep-IsAllowed _ _ _ taker.qty),
            rw (makers-issued taker s.ids d.trades) (sweep_in_priority _ _ _ taker.qty),
          )
    ]

  -- On a well-formed book, when the listing of a level does not fail, what remains of an order
  -- that was neither refused nor cancelled does not cross the book that
  -- the call leaves: it can rest there without crossing it.
  pub match_aggressive_uncrossed :
      (taker : AggressiveOrder) (s : Session L G)
      → IsBook s.book
      → ((l : L) → is_some (pl.snapshot_orders l) ≡ true)
      → (match_aggressive taker s).1.taker_post_only_rejected ≡ false
      → (match_aggressive taker s).1.taker_stp_cancelled ≡ false
      → is_some (match_aggressive taker s).1.taker_remaining ≡ true
      → would_cross taker.side taker.price (match_aggressive taker s).0.book ≡ false
  match_aggressive_uncrossed taker s v listed accepted running rests =
      elim (Bool-cases (refused taker s.book)) [
        | inl h ↦ absurd (ground (arith, rw (match_aggressive-refused taker s h) at accepted))
        | inr h ↦
            let m = match_aggressive-Sweeps taker s v listed h in
            let d = sweep_of taker s.book in
            let some_left : 1 ≤ d.rest =
              lots_positive d.rest (ap is_some (sym m.remaining) ∙ rests) in
            let unstopped : d.stopped ≡ none = ground (arith, m.stopped) in
            would_cross_beyond taker.side taker.price _ d.left m.is_book m.represents
              (sweep-IsBeyond _ _ _ taker.qty unstopped some_left)
      ]
