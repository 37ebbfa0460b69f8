-- ===== src/Matching/Consistency/MassCancelling/Queues.antt =====
-- What `Book::mass_cancel` does to the queues.
use hft_clob_core.Prelude.{
  ◌≡◌, refl, ◌∙◌, ap, sym, inl, inr, Bool, true, false, List, [], ◌∷◌, some, Option-cases, arith,
  if◌then◌else◌,
}
use hft_clob_core.Collections.BTreeSet
use hft_clob_core.Domain.Side.{Side}
use hft_clob_core.Domain.Price.{Price}
use hft_clob_core.Domain.OrderId.{OrderId}
use hft_clob_core.Domain.AccountId.{AccountId}
use hft_clob_core.Matching.Types.{MassCancellation}
use hft_clob_core.Matching.Queue
use hft_clob_core.Matching.Queue.{PlOrder}
use hft_clob_core.Matching.Level.{PriceLevel, IsPriceLevel}
use hft_clob_core.Matching.Book.{Book}
use hft_clob_core.Matching.Resting.{cancel}
use hft_clob_core.Matching.Modify.{mass_cancel}
use hft_clob_core.Matching.View.{same_place, queue_at}
use hft_clob_core.Matching.Consistency.{IsBook, IsAccountSet, is_owned}
use hft_clob_core.Matching.Consistency.Cancelling.{cancel-IsBook, cancel_unknown}
use hft_clob_core.Matching.Consistency.Leaving.{cancel_lem}
use hft_clob_core.Matching.Consistency.MassCancelling.{
  cancel_each, mass_cancel_ids_lem, AllKnown-owned, mass_cancel-none, mass_cancel-some,
}

-- A queue without some orders; the others stay in their order.
unfoldable pub without : (OrderId → Bool) → List PlOrder → List PlOrder
without gone [] = []
without gone (o ∷ os) = let rest = without gone os in if gone o.id then rest else o ∷ rest

without_ext :
    (f g : OrderId → Bool) (q : List PlOrder)
    → ((i : OrderId) → f i ≡ g i)
    → without f q ≡ without g q
unfolding without
without_ext f g [] h = refl
without_ext f g (o ∷ os) h = ground (arith, h o.id, without_ext f g os h)

without_none : (q : List PlOrder) → without (λ i. false) q ≡ q
unfolding without
without_none [] = refl
without_none (o ∷ os) = ap (◌∷◌ o) (without_none os)

without-remove :
    (i : OrderId) (is : List OrderId) (q : List PlOrder)
    → without (λ j. BTreeSet.contains j is) (Queue.remove i q)
      ≡ without (λ j. BTreeSet.contains j (i ∷ is)) q
unfolding without Queue.remove BTreeSet.contains
without-remove i is [] = refl
without-remove i is (o ∷ os) = ground (arith, without-remove i is os)

left_as_is :
    (i : OrderId) (here : Bool) (q : List PlOrder)
    → Queue.has i q ≡ here
    → (if here then Queue.remove i q else q) ≡ Queue.remove i q
left_as_is i true q h = refl
left_as_is i false q h = sym (Queue.remove_absent i q h)

module _ {L : Type 0} ⦃pl : PriceLevel L⦄ ⦃law : IsPriceLevel pl⦄ where
  queue_at-cancel :
      (i : OrderId) (b : Book L) (s : Side) (p : Price)
      → IsBook b
      → queue_at s p (cancel i b).0 ≡ Queue.remove i (queue_at s p b)
  queue_at-cancel i b s p v = elim (Option-cases (b.index i)) [
    | inl e ↦
        rw (cancel_unknown i b e)
          (sym (Queue.remove_absent i _ (v.consistent.located s p i ∙ rw e refl)))
    | inr (m, e) ↦
        (cancel_lem i m b v e).1 s p
        ∙ left_as_is i (same_place m.side m.price s p) _ (v.consistent.located s p i ∙ rw e refl)
  ]

  queue_at-cancel_each :
      (is : List OrderId) (b : Book L) (s : Side) (p : Price)
      → IsBook b
      → queue_at s p (cancel_each is b) ≡ without (λ j. BTreeSet.contains j is) (queue_at s p b)
  unfolding BTreeSet.contains
  queue_at-cancel_each [] b s p v = sym (without_none _)
  queue_at-cancel_each (i ∷ is) b s p v =
      queue_at-cancel_each is (cancel i b).0 s p (cancel-IsBook i b v)
      ∙ ap (without (λ j. BTreeSet.contains j is)) (queue_at-cancel i b s p v)
      ∙ without-remove i is (queue_at s p b)

  -- A mass cancel takes the account's orders out of every queue.
  pub queue_at-mass_cancel :
      (a : AccountId) (b : Book L) (out : List MassCancellation) (s : Side) (p : Price)
      → IsBook b
      → queue_at s p (mass_cancel a (b, out)).0
        ≡ without (λ i. is_owned (b.index i) a) (queue_at s p b)
  queue_at-mass_cancel a b out s p v = elim (Option-cases (b.by_account a)) [
    | inl e ↦
        ap (λ r. queue_at s p r.0) (mass_cancel-none a b out e)
        ∙ sym (without_none _)
        ∙ without_ext _ _ _ (λ i. ground (arith, e, v.consistent.owned a i))
    | inr (is, e) ↦
        let (ascending, _) : IsAccountSet (some is) = rw e at (v.consistent.account_sets a) in
        let owned : (j : OrderId) → BTreeSet.contains j is ≡ is_owned (b.index j) a =
          λ j. rw e at (v.consistent.owned a j) in
        let known = AllKnown-owned is a b (λ j h. sym (owned j) ∙ h) in
        ap (λ r. queue_at s p r.0) (mass_cancel-some a b out is e)
        ∙ ap (queue_at s p) (mass_cancel_ids_lem is b out v ascending known).0
        ∙ queue_at-cancel_each is b s p v
        ∙ without_ext _ _ _ owned
  ]
