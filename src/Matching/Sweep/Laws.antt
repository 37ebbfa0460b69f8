-- ===== src/Matching/Sweep/Laws.antt =====
-- The laws of the sweep: it conserves lots, keeps the limit, and keeps price-time priority.
use mathlib.Core.List.{map-append}
use hft_clob_core.Prelude.{
  ℕ, ◌+◌, ◌-◌, ◌≤◌, ◌≡◌, refl, ◌∙◌, ap, sym, Bool, true, false, List, [], ◌∷◌, ◌++◌, map,
  append-nil, append_assoc, none, Bool-cases, Option-cases, inl, inr, ltb, ◌==◌, arith, All,
  All-append, sum_by, sum_by-append,
}
use hft_clob_core.Domain.Price.{Price}
use hft_clob_core.Domain.OrderId.{OrderId}
use hft_clob_core.Matching.Queue.{PlOrder}
use hft_clob_core.Matching.Sweep.Equations.{
  sweep_queue_rest, sweep_used, sweep_nil, sweep_limit, sweep_level, after_level-none,
  after_level-some,
}
use hft_clob_core.Matching.Sweep.{Trade, Ladder, sweep_queue, sweep}

abbrev pub traded : List Trade → ℕ
traded ts = sum_by (λ t. t.qty) ts

-- A trade within the limit, against another account's order.
abbrev pub IsAllowed : (OrderId → Bool) → (Price → Bool) → Trade → Type 0
IsAllowed own crosses t = (own t.maker ≡ false) × (crosses t.price ≡ true)

-- The orders of a ladder by price and then by time.
abbrev pub by_priority : Ladder → List OrderId
by_priority [] = []
by_priority ((p, q) ∷ lv) = map (λ o. o.id) q ++ by_priority lv

-- Nothing of the ladder is within the limit.
abbrev pub IsBeyond : (Price → Bool) → Ladder → Type 0
IsBeyond crosses [] = Unit {0}
IsBeyond crosses ((p, q) ∷ lv) = crosses p ≡ false

module _ (own : OrderId → Bool) (p : Price) where
  sweep_queue-conserves :
      (q : List PlOrder) (r : ℕ)
      → traded (sweep_queue own p q r).trades + (sweep_queue own p q r).rest ≡ r
  unfolding sweep_queue
  sweep_queue-conserves [] r = omega arith
  sweep_queue-conserves (o ∷ os) r = ground (arith, sweep_queue-conserves os (r - o.quantity))

  sweep_queue-IsAllowed :
      (crosses : Price → Bool) (q : List PlOrder) (r : ℕ)
      → crosses p ≡ true
      → All (IsAllowed own crosses) (sweep_queue own p q r).trades
  unfolding sweep_queue
  sweep_queue-IsAllowed crosses [] r h = tt
  sweep_queue-IsAllowed crosses (o ∷ os) r h =
      ground (arith, sweep_queue-IsAllowed crosses os (r - o.quantity) h)

module _ (own : OrderId → Bool) (crosses : Price → Bool) where
  pub sweep-conserves :
      (lv : Ladder) (r : ℕ)
      → traded (sweep own crosses lv r).trades + (sweep own crosses lv r).rest ≡ r
  unfolding sweep
  sweep-conserves [] r = omega arith
  sweep-conserves ((p, q) ∷ lv) r =
      let d = sweep_queue own p q r in
      ground (
        arith,
        sweep_queue-conserves own p q r,
        sweep-conserves lv d.rest,
        sum_by-append (λ t. t.qty) d.trades (sweep own crosses lv d.rest).trades,
      )

  pub sweep-IsAllowed :
      (lv : Ladder) (r : ℕ) → All (IsAllowed own crosses) (sweep own crosses lv r).trades
  unfolding sweep
  sweep-IsAllowed [] r = tt
  sweep-IsAllowed ((p, q) ∷ lv) r =
      let d = sweep_queue own p q r in
      ground (
        arith,
        sweep_queue-IsAllowed own p crosses q r,
        sweep-IsAllowed lv d.rest,
        All-append (IsAllowed own crosses) d.trades (sweep own crosses lv d.rest).trades,
      )

  -- What an unstopped sweep could not use up is worth less than the limit to the ladder's rest.
  pub sweep-IsBeyond :
      (lv : Ladder) (r : ℕ)
      → (sweep own crosses lv r).stopped ≡ none
      → 1 ≤ (sweep own crosses lv r).rest
      → IsBeyond crosses (sweep own crosses lv r).left
  unfolding sweep
  sweep-IsBeyond [] r h k = tt
  sweep-IsBeyond ((p, q) ∷ lv) r h k =
      let d = sweep_queue own p q r in
      ground (
        arith,
        sweep_queue_rest own p q r,
        sweep-IsBeyond lv d.rest,
        sweep_used own crosses lv d.rest,
      )

-- `xs` is how `ys` begins.
abbrev pub IsPrefix : List OrderId → List OrderId → Type 0
IsPrefix xs ys = (zs : List OrderId) × (xs ++ zs ≡ ys)

prefix_cons : (x : OrderId) (xs ys : List OrderId) → IsPrefix xs ys → IsPrefix (x ∷ xs) (x ∷ ys)
prefix_cons x xs ys (zs, e) = (zs, ap (◌∷◌ x) e)

prefix-append : (xs ys zs : List OrderId) → IsPrefix xs ys → IsPrefix xs (ys ++ zs)
prefix-append xs ys zs (us, e) = (us ++ zs, sym (append_assoc xs us zs) ∙ ap (λ l. l ++ zs) e)

append-prefix : (xs ys zs : List OrderId) → IsPrefix ys zs → IsPrefix (xs ++ ys) (xs ++ zs)
append-prefix xs ys zs (us, e) = (us, append_assoc xs ys us ∙ ap (λ l. xs ++ l) e)

abbrev pub makers : List Trade → List OrderId
makers ts = map (λ t. t.maker) ts

abbrev ids_of : List PlOrder → List OrderId
ids_of q = map (λ o. o.id) q

module _ (own : OrderId → Bool) (p : Price) where
  -- The trades of a level are with its oldest orders, and with all of them if none is left.
  sweep_queue_oldest :
      (q : List PlOrder) (r : ℕ) → IsPrefix (makers (sweep_queue own p q r).trades) (ids_of q)
  unfolding sweep_queue
  sweep_queue_oldest [] r = ([], refl)
  sweep_queue_oldest (o ∷ os) r = elim (Bool-cases (r == 0)) [
    | inl z ↦ rw z (o.id ∷ ids_of os, refl)
    | inr z ↦ elim (Bool-cases (own o.id)) [
      | inl mine ↦ rw (z, mine) (o.id ∷ ids_of os, refl)
      | inr other ↦ elim (Bool-cases (ltb r o.quantity)) [
        | inl less ↦ rw (z, other, less) (ids_of os, refl)
        | inr more ↦
            rw (z, other, more) (prefix_cons o.id _ _ (sweep_queue_oldest os (r - o.quantity)))
      ]
    ]
  ]

  sweep_queue_all :
      (q : List PlOrder) (r : ℕ)
      → (sweep_queue own p q r).stopped ≡ none
      → (sweep_queue own p q r).left ≡ []
      → makers (sweep_queue own p q r).trades ≡ ids_of q
  unfolding sweep_queue
  sweep_queue_all [] r h e = refl
  sweep_queue_all (o ∷ os) r h e = ground (arith, sweep_queue_all os (r - o.quantity))

module _ (own : OrderId → Bool) (crosses : Price → Bool) where
  -- A sweep meets the best prices first and, within a price, the oldest orders.
  pub sweep_in_priority :
      (lv : Ladder) (r : ℕ) → IsPrefix (makers (sweep own crosses lv r).trades) (by_priority lv)
  sweep_in_priority [] r = rw (sweep_nil own crosses r) ([], refl)
  sweep_in_priority ((p, q) ∷ lv) r = elim (Bool-cases (r == 0)) [
    | inl z ↦
        rw (sweep_used own crosses ((p, q) ∷ lv) r (ground arith)) (by_priority ((p, q) ∷ lv), refl)
    | inr z ↦ elim (Bool-cases (crosses p)) [
      | inr c ↦ rw (sweep_limit own crosses p q lv r c) (by_priority ((p, q) ∷ lv), refl)
      | inl c ↦
          rw (sweep_level own crosses p q lv r z c)
            (elim (Option-cases (sweep_queue own p q r).stopped) [
              | inr (o, e) ↦
                  rw (after_level-some p (sweep_queue own p q r) o _ lv e)
                    (prefix-append _ (ids_of q) (by_priority lv) (sweep_queue_oldest own p q r))
              | inl e ↦
                  rw
                    (
                      after_level-none p (sweep_queue own p q r) _ lv e,
                      map-append (λ t. t.maker) (sweep_queue own p q r).trades
                          (sweep own crosses lv (sweep_queue own p q r).rest).trades,
                    )
                    (elim (sweep_queue_rest own p q r e) [
                      | inl used ↦
                          rw
                            (
                              sweep_used own crosses lv (sweep_queue own p q r).rest used,
                              append-nil (makers (sweep_queue own p q r).trades),
                            )
                            (prefix-append _ (ids_of q) (by_priority lv)
                              (sweep_queue_oldest own p q r))
                      | inr empty ↦
                          rw (sweep_queue_all own p q r e empty)
                            (append-prefix (ids_of q) _ (by_priority lv) (sweep_in_priority lv _))
                    ])
            ])
    ]
  ]
