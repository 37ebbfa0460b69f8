-- ===== src/Matching/Modify/Tracking.antt =====
-- What `Book::replace` does to the sidecar.
use hft_clob_core.Prelude.{
  ap, ℕ, ◌≡◌, refl, ◌∙◌, sym, inl, inr, Bool, true, false, not, ◌&&◌, ◌||◌, List, [], ◌++◌,
  append-nil, Option, none, some, Bool-cases, Option-cases, Result-cases, is_some, get_or, Result,
  ok, err, ◌==◌, if◌then◌else◌, arith,
}
use hft_clob_core.Domain.Qty
use hft_clob_core.Domain.Qty.{Qty}
use hft_clob_core.Domain.Price.{Price}
use hft_clob_core.Domain.OrderId.{OrderId}
use hft_clob_core.Matching.Types.{
  BookError, unknown_order_id, Fill, StpCancellation, OrderMeta, MatchResult, ReplaceOutcome,
  IdGenerator,
}
use hft_clob_core.Matching.Level.{PriceLevel, IsPriceLevel}
use hft_clob_core.Matching.Book.{Book, level_at, would_cross, resting_qty}
use hft_clob_core.Matching.Resting.{add_resting, cancel, meta_of}
use hft_clob_core.Matching.Consistency.{IsBook}
use hft_clob_core.Matching.Consistency.Adding.{add_resting_refused, add_resting_accepted}
use hft_clob_core.Matching.Consistency.Cancelling.{cancel-IsBook}
use hft_clob_core.Matching.Consistency.Leaving.{cancel_lem}
use hft_clob_core.Matching.Walk.Guarantees.{match_aggressive-IsBook}
use hft_clob_core.Matching.Modify.Replacing.{
  replace_unknown, replace_kept, replace_gated, replace_resubmits,
}
use hft_clob_core.Matching.Walk.{Session, is_post_only, match_aggressive}
use hft_clob_core.Matching.Walk.Tracking.{is_gone, put_level-index, match_aggressive-Tracks}
use hft_clob_core.Matching.Modify.{
  resting_of, aggressive_of, keeps_priority, reduce_in_place, rest_after, resubmit, replace,
}

-- Does the answer of a replace leave the order on the book?
abbrev pub is_resting : Option MatchResult → Bool
is_resting none = true
is_resting (some r) =
    r.taker_post_only_rejected || (not r.taker_stp_cancelled && is_some r.taker_remaining)

module _ {L G : Type 0} where
  -- What a replace of the order `i` does to the buffers, to the ids and to the sidecar: the entries
  -- of the other orders are kept but for those that the buffers tell of, and an entry of `i` keeps
  -- its account and side, and is there only if the answer says that the order rests.
  pub record IsReplaced (measure : G → ℕ) (i : OrderId) (s s' : Session L G)
      (answer : Result BookError ReplaceOutcome) : Type 0 where
    pub fills : List Fill
    pub stps : List StpCancellation
    pub out_fills : s'.out_fills ≡ s.out_fills ++ fills
    pub out_stp : s'.out_stp ≡ s.out_stp ++ stps
    pub ids : measure s'.ids ≡ measure s.ids
    pub others :
        (j : OrderId)
        → (j == i) ≡ false
        → s'.book.index j ≡ (if is_gone fills stps j then none else s.book.index j)
    pub owner :
        (m' : OrderMeta)
        → s'.book.index i ≡ some m'
        → (m : OrderMeta) × (s.book.index i ≡ some m)
          × (m'.account_id ≡ m.account_id)
          × (m'.side ≡ m.side)
    pub rests :
        (r : ReplaceOutcome)
        → answer ≡ ok r
        → is_resting r.match_result ≡ false
        → s'.book.index i ≡ none

  -- Nothing is traded, and the sidecar stays.
  untouched :
      (measure : G → ℕ) (i : OrderId) (s : Session L G) (b : Book L)
      → (answer : Result BookError ReplaceOutcome) → b.index ≡ s.book.index
      → ((r : ReplaceOutcome)
          → answer ≡ ok r
          → is_resting r.match_result ≡ false
          → s.book.index i ≡ none)
      → IsReplaced measure i s (record s { book = b }) answer
  untouched measure i s b answer e rests = record {
    fills = [];
    stps = [];
    out_fills = sym (append-nil s.out_fills);
    out_stp = sym (append-nil s.out_stp);
    ids = refl;
    others = λ j h. ap (λ x. x j) e;
    owner = λ m h. (m, ap (λ x. x i) (sym e) ∙ h, refl, refl);
    rests = λ r h k. ap (λ x. x i) e ∙ rests r h k;
  }

module _ {L G : Type 0} ⦃pl : PriceLevel L⦄ ⦃law : IsPriceLevel pl⦄ ⦃gen : IdGenerator G⦄ where
  -- The rest of an order that is off the book.
  record IsRested (i : OrderId) (m : OrderMeta) (s s' : Session L G)
      (answer : Result BookError ReplaceOutcome) : Type 0 where
    out_fills : s'.out_fills ≡ s.out_fills
    out_stp : s'.out_stp ≡ s.out_stp
    ids : s'.ids ≡ s.ids
    others : (j : OrderId) → (j == i) ≡ false → s'.book.index j ≡ s.book.index j
    owner :
        (m' : OrderMeta)
        → s'.book.index i ≡ some m'
        → (m'.account_id ≡ m.account_id) × (m'.side ≡ m.side)
    rests :
        (r : ReplaceOutcome)
        → answer ≡ ok r
        → is_resting r.match_result ≡ false
        → s'.book.index i ≡ none

  module _ (i : OrderId) (m : OrderMeta) (p : Price) where
    off :
        (s : Session L G) (answer : Result BookError ReplaceOutcome)
        → s.book.index i ≡ none
        → IsRested i m s s answer
    off s answer e = record {
      out_fills = refl;
      out_stp = refl;
      ids = refl;
      others = λ j h. refl;
      owner = λ m' h. absurd (ground (arith, e));
      rests = λ r h k. e;
    }

    rest_after-IsRested :
        (s : Session L G) (r : MatchResult)
        → IsBook s.book
        → s.book.index i ≡ none
        → IsRested i m s (rest_after i m p (s, r)).0 (rest_after i m p (s, r)).1
    unfolding rest_after resting_of meta_of
    rest_after-IsRested s r v e = elim (Bool-cases r.taker_stp_cancelled) [
      | inl h ↦ rw h (off s _ e)
      | inr h ↦ elim (Option-cases r.taker_remaining) [
        | inl x ↦ rw (h, rest_after) (rw x (off s _ e))
        | inr (q, x) ↦ elim (Result-cases (add_resting (resting_of i m p q) s.book).1) [
          | inl (u, y) ↦
              let added = add_resting_accepted (resting_of i m p q) s.book v y in
              rw (h, rest_after)
                (rw x (
                  rw y (record {
                    out_fills = refl;
                    out_stp = refl;
                    ids = refl;
                    others = λ j k. added.2 j ∙ rw k refl;
                    owner = λ m' k. ground (arith, added.2 i);
                    rests = λ r' k z. absurd (ground (arith, h, x));
                  })))
          | inr (u, y) ↦
              rw (h, rest_after)
                (rw x
                  (rw y (rw (add_resting_refused (resting_of i m p q) s.book u v y) (off s _ e))))
        ]
      ]
    ]

    module _ (measure : G → ℕ) (same : (g : G) → measure (gen.next_trade_id g).1 ≡ measure g)
        (listed : (l : L) → is_some (pl.snapshot_orders l) ≡ true) where
      resubmit-IsReplaced :
          (new : Qty) (s : Session L G)
          → IsBook s.book
          → s.book.index i ≡ some m
          → IsReplaced measure i s (resubmit i m p new s).0 (resubmit i m p new s).1
      unfolding resubmit
      resubmit-IsReplaced new s v e =
          let s1 : Session L G = record s { book = (cancel i s.book).0 } in
          let taker = aggressive_of i m p new in
          let (left, _, index) = cancel_lem i m s.book v e in
          let walked = match_aggressive-Tracks measure same taker s1 in
          let gone : (match_aggressive taker s1).0.book.index i ≡ none =
            ground (arith, walked.index i, index i) in
          let rested =
            rest_after-IsRested (match_aggressive taker s1).0 (match_aggressive taker s1).1
              (match_aggressive-IsBook taker s1 (cancel-IsBook i s.book v) listed) gone in
          rw (left, resubmit)
            (record {
              fills = walked.fills;
              stps = walked.stps;
              out_fills = rested.out_fills ∙ walked.out_fills;
              out_stp = rested.out_stp ∙ walked.out_stp;
              ids = ap measure rested.ids ∙ walked.ids;
              others = λ j h. ground (arith, rested.others j h, walked.index j, index j);
              owner = λ m' h. (m, e, (rested.owner m' h).0, (rested.owner m' h).1);
              rests = rested.rests;
            })

module _ {L : Type 0} ⦃pl : PriceLevel L⦄ ⦃law : IsPriceLevel pl⦄ where
  reduce_in_place-index :
      (i : OrderId) (m : OrderMeta) (new : Qty) (b : Book L)
      → ((reduce_in_place m i new b).0.index ≡ b.index)
        × ((r : ReplaceOutcome)
            → (reduce_in_place m i new b).1 ≡ ok r
            → is_resting r.match_result ≡ true)
  unfolding reduce_in_place
  reduce_in_place-index i m new b = elim (Option-cases (level_at m.side m.price b)) [
    | inl e ↦ rw (e, reduce_in_place) (refl, λ r h. absurd (ground arith))
    | inr (l, e) ↦ rw (e, reduce_in_place) (put_level-index m.side m.price _ b, λ r h. ground arith)
  ]

module _ {L G : Type 0} ⦃pl : PriceLevel L⦄ ⦃law : IsPriceLevel pl⦄ ⦃gen : IdGenerator G⦄ where
  -- Every replace on a well-formed book, when the listing of a level does not fail.
  pub replace-IsReplaced :
      (measure : G → ℕ)
      → ((g : G) → measure (gen.next_trade_id g).1 ≡ measure g)
      → ((l : L) → is_some (pl.snapshot_orders l) ≡ true)
      → (i : OrderId) (p : Price) (new : Qty) (s : Session L G) → IsBook s.book
      → IsReplaced measure i s (replace i p new s).0 (replace i p new s).1
  replace-IsReplaced measure same listed i p new s v = elim (Option-cases (s.book.index i)) [
    | inl e ↦
        rw (replace_unknown i p new s e)
          (untouched measure i s s.book (err unknown_order_id) refl (λ r h k. e))
    | inr (m, e) ↦
        let current = get_or (resting_qty i s.book) Qty.min_qty in
        elim (Bool-cases (keeps_priority m current p new)) [
          | inl k ↦
              let (index, resting) = reduce_in_place-index i m new s.book in
              rw (replace_kept i m p new s e k) (
                untouched measure i s (reduce_in_place m i new s.book).0 _ index
                  (λ r h z. absurd (cc (resting r h, z))))
          | inr k ↦ elim (Bool-cases (is_post_only m.tif && would_cross m.side (some p) s.book)) [
            | inl g ↦
                rw (replace_gated i m p new s e k g)
                  (untouched measure i s s.book _ refl (λ r h z. absurd (ground arith)))
            | inr g ↦
                rw (replace_resubmits i m p new s e k g)
                  (resubmit-IsReplaced i m p measure same listed new s v e)
          ]
        ]
  ]
