-- ===== src/Risk/Checks.antt =====
-- What the pre-trade checks of crates/risk/src/state.rs let through.
use native.Mathlib.Nat.{mul-le-mul}
use hft_clob_core.Prelude.{
  ℕ, ◌+◌, ◌*◌, ◌^◌, ◌≤◌, ◌≡◌, refl, ◌↔◌, inl, inr, true, false, Option, none, some, Option-cases,
  Result, ok, err, ◌>>◌, arith,
}
use hft_clob_core.Domain.AccountId.{AccountId}
use hft_clob_core.Domain.OrderType.{OrderType, limit, market}
use hft_clob_core.Domain.Price.{Price, IsPrice}
use hft_clob_core.Domain.Qty.{Qty, IsQty}
use hft_clob_core.Domain.RejectReason.{
  RejectReason, kill_switched, malformed_message, market_order_in_empty_book,
}
use hft_clob_core.Wire.Inbound.{NewOrder, CancelOrder, CancelReplace, MassCancel}
use hft_clob_core.Risk.{
  AccountState, RiskState, account_of, notional_of, check_price_band, check_account_limits,
  effective_price, check_new_order, check_cancel, check_cancel_replace, check_mass_cancel,
}

-- At most 5 % from the last trade, if there was one.
abbrev pub IsInBand : Price → Option Price → Type 0
IsInBand p none = Unit {0}
IsInBand p (some r) = (100 * p ≤ 105 * r) × (95 * r ≤ 100 * p)

-- A price for which the checks are meant.
abbrev pub IsReference : Option Price → Type 0
IsReference none = Unit {0}
IsReference (some r) = IsPrice r

-- The product of a valid price and a valid quantity fits u128, so that it never wraps.
pub notional_of_exact : (p : Price) (q : Qty) → IsPrice p → IsQty q → notional_of p q ≡ p * q
unfolding notional_of
notional_of_exact p q hp hq =
    let below : p * q ≤ (2 ^ 63) * (2 ^ 64) =
      mul-le-mul {n₂ = 2 ^ 63} {m₂ = 2 ^ 64} (omega arith) (omega arith) in
    omega (arith, below)

-- On valid prices the test of the band accepts exactly the prices within 5 % of the last trade, and
-- every price before the first trade.
pub check_price_band_iff :
    (p : Price) (last : Option Price)
    → IsPrice p
    → IsReference last
    → (check_price_band p last ≡ ok tt) ↔ IsInBand p last
unfolding check_price_band
check_price_band_iff p none hp hr = (λ h. tt, λ h. refl)
check_price_band_iff p (some r) hp hr = (λ h. ground arith, λ h. ground arith)

-- While the kill switch is engaged every client command is rejected for it.
pub kill_switch_rejects :
    (st : RiskState)
    → st.kill_switch ≡ true
    → ((m : NewOrder) (best : Option Price) → check_new_order m best st ≡ err kill_switched)
      × ((m : CancelOrder) → check_cancel m st ≡ err kill_switched)
      × ((m : CancelReplace) → check_cancel_replace m st ≡ err kill_switched)
      × ((m : MassCancel) → check_mass_cancel m st ≡ err kill_switched)
unfolding check_new_order check_cancel check_cancel_replace check_mass_cancel
kill_switch_rejects st h = (λ m best. rw h refl, λ m. rw h refl, λ m. rw h refl, λ m. rw h refl)

-- The price at which a new order counts: its own, or the best of the other side.
abbrev pub reference_price : OrderType → Option Price → Option Price → Option Price
reference_price limit own best = own
reference_price market own best = best

-- The account may have one more order of this size.
abbrev pub HasRoom : AccountState → ℕ → Type 0
HasRoom e n = (e.open_orders + 1 ≤ 1_000) × (e.notional + n ≤ 10_000_000_000)

check_account_limits_iff :
    (a : AccountId) (p : Price) (q : Qty) (st : RiskState)
    → IsPrice p
    → IsQty q
    → (check_account_limits a p q st ≡ ok tt) ↔ HasRoom (account_of a st) (p * q)
unfolding check_account_limits
check_account_limits_iff a p q st hp hq = (
  λ h. ground (arith, notional_of_exact p q hp hq),
  λ h. ground (arith, notional_of_exact p q hp hq),
)

-- Orders that pass: a price is known and in the band, and the account has room for the order.
abbrev pub IsAdmissibleAt : Option Price → NewOrder → RiskState → Type 0
IsAdmissibleAt none m st = ⊥
IsAdmissibleAt (some p) m st =
    IsInBand p st.last_trade_price × HasRoom (account_of m.account_id st) (p * m.qty)

both_pass :
    (a b : Result RejectReason (Unit {0})) → ((a >> b) ≡ ok tt) ↔ ((a ≡ ok tt) × (b ≡ ok tt))
both_pass (ok tt) b = (λ h. (refl, h), λ h. h.1)
both_pass (err e) b = (λ h. absurd (ground arith), λ h. absurd (ground (arith, h.0)))

check_new_order_runs :
    (m : NewOrder) (best : Option Price) (st : RiskState) (p : Price)
    → st.kill_switch ≡ false
    → effective_price m.order_type m.price best ≡ ok p
    → check_new_order m best st
      ≡ (check_price_band p st.last_trade_price >> check_account_limits m.account_id p m.qty st)
unfolding check_new_order
check_new_order_runs m best st p k h = rw (k, h) refl

check_new_order_stops :
    (m : NewOrder) (best : Option Price) (st : RiskState) (e : RejectReason)
    → st.kill_switch ≡ false
    → effective_price m.order_type m.price best ≡ err e
    → check_new_order m best st ≡ err e
unfolding check_new_order
check_new_order_stops m best st e k h = rw (k, h) refl

effective_price-some :
    (t : OrderType) (own best : Option Price) (p : Price)
    → reference_price t own best ≡ some p
    → effective_price t own best ≡ ok p
unfolding effective_price
effective_price-some limit own best p h = rw h refl
effective_price-some market own best p h = rw h refl

effective_price-none :
    (t : OrderType) (own best : Option Price)
    → reference_price t own best ≡ none
    → (e : RejectReason) × (effective_price t own best ≡ err e)
unfolding effective_price
effective_price-none limit own best h = (malformed_message, rw h refl)
effective_price-none market own best h = (market_order_in_empty_book, rw h refl)

-- With the kill switch off, valid reference prices and a valid quantity, a new order passes exactly if a price is known for it that is in the
-- band, and its account has room for one more order of its notional.
pub check_new_order_iff :
    (m : NewOrder) (best : Option Price) (st : RiskState)
    → st.kill_switch ≡ false
    → IsReference (reference_price m.order_type m.price best)
    → IsReference st.last_trade_price
    → IsQty m.qty
    → (check_new_order m best st ≡ ok tt)
      ↔ IsAdmissibleAt (reference_price m.order_type m.price best) m st
check_new_order_iff m best st k valid last lots =
    elim (Option-cases (reference_price m.order_type m.price best)) [
      | inl h ↦
          let (e, stops) = effective_price-none m.order_type m.price best h in
          rw (h, check_new_order_stops m best st e k stops)
            (λ x. absurd (ground arith), λ x. absurd x)
      | inr (p, h) ↦
          let price : IsPrice p = rw h at valid in
          let band = check_price_band_iff p st.last_trade_price price last in
          let room = check_account_limits_iff m.account_id p m.qty st price lots in
          let both =
            both_pass (check_price_band p st.last_trade_price)
              (check_account_limits m.account_id p m.qty st) in
          rw
            (
              h,
              check_new_order_runs m best st p k
                  (effective_price-some m.order_type m.price best p h),
            )
            (λ x. (band.0 (both.0 x).0, room.0 (both.0 x).1), λ x. both.1 (band.1 x.0, room.1 x.1))
    ]
