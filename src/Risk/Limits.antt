-- ===== src/Risk/Limits.antt =====
-- The per-account counters of crates/risk/src/state.rs stay within their caps and follow the
-- orders that rest.
use hft_clob_core.Prelude.{
  ℕ, ◌+◌, ◌≤◌, ◌≡◌, refl, ◌≢◌, inl, inr, ok, err, Result-cases, ◌==◌, if◌then◌else◌, arith,
}
use hft_clob_core.Collections.HashMap
use hft_clob_core.Domain.AccountId.{AccountId}
use hft_clob_core.Domain.Price.{Price}
use hft_clob_core.Domain.Qty.{Qty}
use hft_clob_core.Domain.RejectReason.{RejectReason}
use hft_clob_core.Risk.{
  AccountState, RiskState, one_more, account_of, set_account, on_order_resting, on_order_removed,
  notional_of, check_account_limits,
}

-- No account is over a cap.
abbrev pub IsWithinCaps : RiskState → Type 0
IsWithinCaps st =
    (a : AccountId)
    → ((account_of a st).open_orders ≤ 1_000) × ((account_of a st).notional ≤ 10_000_000_000)

one_more_within :
    (e e' : AccountState) (n : ℕ)
    → one_more e n ≡ ok e'
    → (e'.open_orders ≤ 1_000) × (e'.notional ≤ 10_000_000_000)
unfolding one_more
one_more_within e e' n h = (ground arith, ground arith)

one_more_adds :
    (e e' : AccountState) (n : ℕ)
    → one_more e n ≡ ok e'
    → (e'.open_orders ≡ e.open_orders + 1) × (e'.notional ≡ e.notional + n)
unfolding one_more
one_more_adds e e' n h = (ground arith, ground arith)

account_of-set_account :
    (a b : AccountId) (e : AccountState) (st : RiskState)
    → account_of b (set_account a e st) ≡ (if b == a then e else account_of b st)
unfolding account_of HashMap.insert
account_of-set_account a b e st = ground arith

on_order_resting_ok :
    (a : AccountId) (n : ℕ) (st : RiskState) (e : AccountState)
    → one_more (account_of a st) n ≡ ok e
    → on_order_resting a n st ≡ (set_account a e st, ok tt)
unfolding on_order_resting
on_order_resting_ok a n st e h = rw (h, on_order_resting) refl

on_order_resting_err :
    (a : AccountId) (n : ℕ) (st : RiskState) (e : RejectReason)
    → one_more (account_of a st) n ≡ err e
    → on_order_resting a n st ≡ (set_account a (account_of a st) st, err e)
unfolding on_order_resting
on_order_resting_err a n st e h = rw (h, on_order_resting) refl

-- An order that rests leaves every account within its caps, if they were before, whether it is
-- counted or refused.
pub on_order_resting-IsWithinCaps :
    (a : AccountId) (n : ℕ) (st : RiskState)
    → IsWithinCaps st
    → IsWithinCaps (on_order_resting a n st).0
on_order_resting-IsWithinCaps a n st v b = elim (Result-cases (one_more (account_of a st) n)) [
  | inl (e, h) ↦
      rw (on_order_resting_ok a n st e h, account_of-set_account a b e st)
        (ground (arith, one_more_within (account_of a st) e n h, v b))
  | inr (e, h) ↦
      rw (on_order_resting_err a n st e h, account_of-set_account a b (account_of a st) st)
        (ground (arith, v a, v b))
]

-- An order that is removed leaves every account within its caps, if they were before.
pub on_order_removed-IsWithinCaps :
    (a : AccountId) (n : ℕ) (st : RiskState)
    → IsWithinCaps st
    → IsWithinCaps (on_order_removed a n st)
unfolding on_order_removed account_of HashMap.insert HashMap.remove
on_order_removed-IsWithinCaps a n st v b = ground (arith, v a, v b)

removed_counters :
    (a b : AccountId) (n : ℕ) (st : RiskState) (e : AccountState)
    → (e.open_orders ≡ (account_of a st).open_orders + 1)
      × (e.notional ≡ (account_of a st).notional + n)
    → account_of b (on_order_removed a n (set_account a e st)) ≡ account_of b st
unfolding on_order_removed account_of HashMap.insert HashMap.remove
removed_counters a b n st e h = ground arith

-- An order that is counted and then removed with the same notional leaves every account's counters as they were.
pub removed_after_resting :
    (a b : AccountId) (n : ℕ) (st : RiskState)
    → (on_order_resting a n st).1 ≡ ok tt
    → account_of b (on_order_removed a n (on_order_resting a n st).0) ≡ account_of b st
removed_after_resting a b n st h = elim (Result-cases (one_more (account_of a st) n)) [
  | inr (e, x) ↦ absurd (ground (arith, rw (on_order_resting_err a n st e x) at h))
  | inl (e, x) ↦
      rw (on_order_resting_ok a n st e x)
        (removed_counters a b n st e (one_more_adds (account_of a st) e n x))
]

accepted :
    (a : AccountId) (p : Price) (q : Qty) (st : RiskState) (e : RejectReason)
    → check_account_limits a p q st ≡ ok tt
    → one_more (account_of a st) (notional_of p q) ≢ err e
unfolding check_account_limits one_more
accepted a p q st e h x = ground arith

-- An order that passes the check of the caps is not refused when it rests whole in the same state.
pub checked_order_rests :
    (a : AccountId) (p : Price) (q : Qty) (st : RiskState)
    → check_account_limits a p q st ≡ ok tt
    → (on_order_resting a (notional_of p q) st).1 ≡ ok tt
checked_order_rests a p q st h =
    elim (Result-cases (one_more (account_of a st) (notional_of p q))) [
      | inl (e, x) ↦ rw (on_order_resting_ok a (notional_of p q) st e x) refl
      | inr (e, x) ↦ absurd (accepted a p q st e h x)
    ]
