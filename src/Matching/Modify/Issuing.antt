-- ===== src/Matching/Modify/Issuing.antt =====
-- `Book::replace` issues trade ids only.
use hft_clob_core.Prelude.{
  ℕ, ◌≡◌, refl, ◌∙◌, ap, inl, inr, ◌&&◌, some, Bool-cases, Option-cases, Result-cases, get_or,
}
use hft_clob_core.Domain.Qty
use hft_clob_core.Domain.Qty.{Qty}
use hft_clob_core.Domain.Price.{Price}
use hft_clob_core.Domain.OrderId.{OrderId}
use hft_clob_core.Matching.Types.{OrderMeta, MatchResult, IdGenerator}
use hft_clob_core.Matching.Level.{PriceLevel, IsPriceLevel}
use hft_clob_core.Matching.Book.{would_cross, resting_qty}
use hft_clob_core.Matching.Resting.{add_resting, cancel}
use hft_clob_core.Matching.Walk.{Session, is_post_only, match_aggressive}
use hft_clob_core.Matching.Walk.Tracking.{match_aggressive-Tracks}
use hft_clob_core.Matching.Modify.{
  resting_of, aggressive_of, keeps_priority, rest_after, resubmit, replace,
}
use hft_clob_core.Matching.Modify.Replacing.{
  replace_unknown, replace_kept, replace_gated, replace_resubmits,
}

module _ {L G : Type 0} ⦃pl : PriceLevel L⦄ ⦃law : IsPriceLevel pl⦄ ⦃gen : IdGenerator G⦄
    (measure : G → ℕ) (same : (g : G) → measure (gen.next_trade_id g).1 ≡ measure g) where
  rest_after-ids :
      (i : OrderId) (m : OrderMeta) (p : Price) (s : Session L G) (r : MatchResult)
      → (rest_after i m p (s, r)).0.ids ≡ s.ids
  unfolding rest_after
  rest_after-ids i m p s r = elim (Bool-cases r.taker_stp_cancelled) [
    | inl h ↦ rw h refl
    | inr h ↦ elim (Option-cases r.taker_remaining) [
      | inl e ↦ rw (h, rest_after) (rw e refl)
      | inr (q, e) ↦ elim (Result-cases (add_resting (resting_of i m p q) s.book).1) [
        | inl (u, x) ↦ rw (h, rest_after) (rw e (rw x refl))
        | inr (u, x) ↦ rw (h, rest_after) (rw e (rw x refl))
      ]
    ]
  ]

  resubmit-ids :
      (i : OrderId) (m : OrderMeta) (p : Price) (new : Qty) (s : Session L G)
      → measure (resubmit i m p new s).0.ids ≡ measure s.ids
  unfolding resubmit
  resubmit-ids i m p new s =
      let s1 : Session L G = record s { book = (cancel i s.book).0 } in
      let taker = aggressive_of i m p new in
      elim (Result-cases (cancel i s.book).1) [
        | inl (u, x) ↦
            rw (x, resubmit)
              (ap measure
                  (rest_after-ids i m p (match_aggressive taker s1).0 (match_aggressive taker s1).1)
                ∙ (match_aggressive-Tracks measure same taker s1).ids)
        | inr (u, x) ↦ rw (x, resubmit) refl
      ]

  -- A measure of the generator that a trade id does not change is not changed by a replace.
  pub replace-ids :
      (i : OrderId) (p : Price) (new : Qty) (s : Session L G)
      → measure (replace i p new s).0.ids ≡ measure s.ids
  replace-ids i p new s = elim (Option-cases (s.book.index i)) [
    | inl e ↦ rw (replace_unknown i p new s e) refl
    | inr (m, e) ↦
        let current = get_or (resting_qty i s.book) Qty.min_qty in
        elim (Bool-cases (keeps_priority m current p new)) [
          | inl k ↦ rw (replace_kept i m p new s e k) refl
          | inr k ↦ elim (Bool-cases (is_post_only m.tif && would_cross m.side (some p) s.book)) [
            | inl g ↦ rw (replace_gated i m p new s e k g) refl
            | inr g ↦ rw (replace_resubmits i m p new s e k g) (resubmit-ids i m p new s)
          ]
        ]
  ]
