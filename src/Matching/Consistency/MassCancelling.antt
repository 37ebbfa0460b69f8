-- ===== src/Matching/Consistency/MassCancelling.antt =====
-- `Book::mass_cancel` as the cancels of the account's orders, one after the other.
pub mod Queues
use mathlib.Core.List.{map-append}
use hft_clob_core.Prelude.{
  ◌≡◌, refl, ◌∙◌, ap, sym, inl, inr, Bool, true, false, List, [], ◌∷◌, ◌++◌, map, none, some,
  Option, Option-cases, arith, if◌then◌else◌, append_assoc, append-nil, get_or,
}
use hft_clob_core.Collections.BTreeSet
use hft_clob_core.Domain.OrderId.{OrderId}
use hft_clob_core.Domain.AccountId.{AccountId}
use hft_clob_core.Matching.Types.{OrderMeta, MassCancellation}
use hft_clob_core.Matching.Level.{PriceLevel, IsPriceLevel}
use hft_clob_core.Matching.Book.{Book}
use hft_clob_core.Matching.Resting.{cancel, cancel_located}
use hft_clob_core.Matching.Modify.{
  mass_record, mass_drop, mass_cancel_one, mass_cancel_ids, mass_cancel,
}
use hft_clob_core.Matching.Consistency.{IsBook, IsAccountSet, is_owned}
use hft_clob_core.Matching.Consistency.Cancelling.{cancel-IsBook, level_of_known}
use hft_clob_core.Matching.Consistency.Leaving.{index-cancel}

module _ {L : Type 0} ⦃pl : PriceLevel L⦄ where
  -- The cancels of a list of orders in turn.
  abbrev pub cancel_each : List OrderId → Book L → Book L
  cancel_each [] b = b
  cancel_each (i ∷ is) b = cancel_each is (cancel i b).0

-- The ids of the records of a mass cancel.
abbrev pub ids_in : List MassCancellation → List OrderId
ids_in out = map (λ r. r.order_id) out

abbrev is_known : Option OrderMeta → Bool
is_known none = false
is_known (some m) = true

abbrev AllKnown : {L : Type 0} → List OrderId → Book L → Type 0
AllKnown [] b = Unit {0}
AllKnown (i ∷ is) b = (is_known (b.index i) ≡ true) × AllKnown is b

module _ {L : Type 0} ⦃pl : PriceLevel L⦄ ⦃law : IsPriceLevel pl⦄ where
  mass_cancel_one_known :
      (i : OrderId) (m : OrderMeta) (b : Book L) (out : List MassCancellation)
      → IsBook b
      → b.index i ≡ some m
      → mass_cancel_one i (b, out) ≡ ((cancel i b).0, out ++ mass_record i m b ∷ [])
  unfolding mass_cancel_one mass_drop cancel cancel_located
  mass_cancel_one_known i m b out v e =
      let (l, there, _) = level_of_known i m b v.consistent e in ground (arith, there, e)

  cancel_each-IsBook : (is : List OrderId) (b : Book L) → IsBook b → IsBook (cancel_each is b)
  cancel_each-IsBook [] b v = v
  cancel_each-IsBook (i ∷ is) b v = cancel_each-IsBook is (cancel i b).0 (cancel-IsBook i b v)

  index-cancel_each :
      (is : List OrderId) (j : OrderId) (b : Book L)
      → IsBook b
      → (cancel_each is b).index j ≡ (if BTreeSet.contains j is then none else b.index j)
  unfolding BTreeSet.contains
  index-cancel_each [] j b v = refl
  index-cancel_each (i ∷ is) j b v =
      ground
        (arith, index-cancel_each is j (cancel i b).0 (cancel-IsBook i b v), index-cancel i j b v)

  AllKnown-cancel :
      (i : OrderId) (is : List OrderId) (b : Book L)
      → IsBook b
      → BTreeSet.Above i is
      → AllKnown is b
      → AllKnown is (cancel i b).0
  AllKnown-cancel i [] b v a k = tt
  AllKnown-cancel i (j ∷ js) b v a k =
      (ground (arith, index-cancel i j b v), AllKnown-cancel i js b v a.1 k.1)

  -- The loop over ascending ids that are all known cancels each of them and records it.
  mass_cancel_ids_lem :
      (is : List OrderId) (b : Book L) (out : List MassCancellation)
      → IsBook b
      → BTreeSet.IsAscending is
      → AllKnown is b
      → ((mass_cancel_ids is (b, out)).0 ≡ cancel_each is b)
        × (ids_in (mass_cancel_ids is (b, out)).1 ≡ ids_in out ++ is)
  unfolding mass_cancel_ids mass_record
  mass_cancel_ids_lem [] b out v a k = (refl, sym (append-nil _))
  mass_cancel_ids_lem (i ∷ is) b out v a k = elim (Option-cases (b.index i)) [
    | inl e ↦ absurd (ground (arith, k.0))
    | inr (m, e) ↦
        let (books, ids) =
          mass_cancel_ids_lem is (cancel i b).0 (out ++ mass_record i m b ∷ [])
            (cancel-IsBook i b v) a.1 (AllKnown-cancel i is b v a.0 k.1) in
        rw (mass_cancel_one_known i m b out v e, mass_cancel_ids)
          (
            books,
            ids
                ∙ ap (λ l. l ++ is) (map-append (λ r. r.order_id) out (mass_record i m b ∷ []))
                ∙ append_assoc (ids_in out) (i ∷ []) is,
          )
  ]

  AllKnown-owned :
      (is : List OrderId) (a : AccountId) (b : Book L)
      → ((j : OrderId) → BTreeSet.contains j is ≡ true → is_owned (b.index j) a ≡ true)
      → AllKnown is b
  unfolding BTreeSet.contains
  AllKnown-owned [] a b h = tt
  AllKnown-owned (i ∷ is) a b h =
      (ground (arith, h i), AllKnown-owned is a b (λ j x. ground (arith, h j)))

  mass_cancel-none :
      (a : AccountId) (b : Book L) (out : List MassCancellation)
      → b.by_account a ≡ none
      → mass_cancel a (b, out) ≡ (b, out)
  unfolding mass_cancel
  mass_cancel-none a b out e = rw e refl

  mass_cancel-some :
      (a : AccountId) (b : Book L) (out : List MassCancellation) (is : List OrderId)
      → b.by_account a ≡ some is
      → mass_cancel a (b, out) ≡ mass_cancel_ids is (b, out)
  unfolding mass_cancel
  mass_cancel-some a b out is e = rw e refl

  -- The ids of an account, in the order in which a mass cancel takes them.
  abbrev pub ids_of_account : AccountId → Book L → List OrderId
  ids_of_account a b = get_or (b.by_account a) []

  -- A mass cancel of a well-formed book leaves it well formed, takes exactly the account's orders
  -- out of the sidecar, and appends one record for each of them, in ascending order of the ids.
  pub mass_cancel_lem :
      (a : AccountId) (b : Book L) (out : List MassCancellation)
      → IsBook b
      → let r = mass_cancel a (b, out) in
        IsBook r.0
        × ((j : OrderId) → r.0.index j ≡ (if is_owned (b.index j) a then none else b.index j))
        × (ids_in r.1 ≡ ids_in out ++ ids_of_account a b)
        × BTreeSet.IsAscending (ids_of_account a b)
  mass_cancel_lem a b out v = elim (Option-cases (b.by_account a)) [
    | inl e ↦
        rw (mass_cancel-none a b out e, e)
          (v, λ j. ground (arith, v.consistent.owned a j), sym (append-nil _), tt)
    | inr (is, e) ↦
        let (ascending, _) : IsAccountSet (some is) = rw e at (v.consistent.account_sets a) in
        let owned : (j : OrderId) → BTreeSet.contains j is ≡ is_owned (b.index j) a =
          λ j. rw e at (v.consistent.owned a j) in
        let (books, ids) =
          mass_cancel_ids_lem is b out v ascending
            (AllKnown-owned is a b (λ j h. sym (owned j) ∙ h)) in
        rw (mass_cancel-some a b out is e, e)
          (
            rw books (cancel_each-IsBook is b v),
            λ j. ap (λ x. x.index j) books ∙ index-cancel_each is j b v ∙ rw (owned j) refl,
            ids,
            ascending,
          )
  ]
