-- ===== src/Risk.antt =====
-- The pre-trade checks and the per-account counters of crates/risk/src/state.rs.
pub mod Checks
pub mod Limits
use hft_clob_core.Prelude.{
  ℕ, ◌+◌, ◌-◌, ◌*◌, ◌%◌, ◌^◌, ◌≤◌, ◌≡◌, Bool, true, false, not, ◌&&◌, Option, none, some, get_or,
  Result, ok, err, ◌>>=◌, ◌>>◌, guard, ok_or, ltb, leb, ◌==◌, if◌then◌else◌,
}
use hft_clob_core.Collections.HashMap
use hft_clob_core.Collections.HashMap.{HashMap}
use hft_clob_core.Domain.Consts.{
  price_band_bps, max_open_orders_per_acct, max_notional_per_acct, u32_max, u128_max,
}
use hft_clob_core.Domain.AccountId.{AccountId}
use hft_clob_core.Domain.OrderType.{OrderType, limit, market}
use hft_clob_core.Domain.Price.{Price}
use hft_clob_core.Domain.Qty.{Qty}
use hft_clob_core.Domain.RejectReason.{
  RejectReason, kill_switched, price_band, max_open_orders, max_notional,
  market_order_in_empty_book, malformed_message,
}
use hft_clob_core.Wire.Inbound.{NewOrder, CancelOrder, CancelReplace, MassCancel}

pub record AccountState : Type 0 where
  pub open_orders : ℕ
  pub notional : ℕ

-- `AccountState::default`
abbrev pub default_account : AccountState
default_account = record { open_orders = 0; notional = 0 }

pub record RiskState : Type 0 where
  pub kill_switch : Bool
  pub per_account : HashMap AccountState
  pub last_trade_price : Option Price

-- `RiskState::new`
abbrev pub new_risk : RiskState
new_risk = record { kill_switch = false; per_account = HashMap.empty; last_trade_price = none }

unfoldable pub set_kill_switch : Bool → RiskState → RiskState
set_kill_switch engaged st = record st { kill_switch = engaged }

unfoldable pub on_fill : Price → RiskState → RiskState
on_fill trade_price st = record st { last_trade_price = some trade_price }

-- `checked_add` at a width.
abbrev pub checked_add : ℕ → ℕ → ℕ → Option ℕ
checked_add most a b = if leb (a + b) most then some (a + b) else none

abbrev pub checked_mul : ℕ → ℕ → ℕ → Option ℕ
checked_mul most a b = if leb (a * b) most then some (a * b) else none

-- The counters with one order more, if they stay within the caps.
unfoldable pub one_more : AccountState → ℕ → Result RejectReason AccountState
one_more entry notional =
    ok_or (checked_add u32_max entry.open_orders 1) max_open_orders >>= λ new_open.
    guard (leb new_open max_open_orders_per_acct) max_open_orders
    >> (ok_or (checked_add u128_max entry.notional notional) max_notional >>= λ new_notional.
        guard (leb new_notional max_notional_per_acct) max_notional
        >> ok (record { open_orders = new_open; notional = new_notional }))

unfoldable pub account_of : AccountId → RiskState → AccountState
account_of account st = get_or (st.per_account account) default_account

abbrev pub set_account : AccountId → AccountState → RiskState → RiskState
set_account account entry st = record st {
  per_account = HashMap.insert account entry st.per_account;
}

-- A refusal leaves the entry that `or_default` has made.
unfoldable pub on_order_resting :
    AccountId → ℕ → RiskState → RiskState × Result RejectReason (Unit {0})
on_order_resting account notional st =
    let entry = account_of account st in
    elim (one_more entry notional) [
      | ok new ↦ (set_account account new st, ok tt)
      | err e ↦ (set_account account entry st, err e)
    ]

unfoldable pub on_order_removed : AccountId → ℕ → RiskState → RiskState
on_order_removed account notional st = elim (st.per_account account) [
  | none ↦ st
  | some entry ↦
      let open_orders = entry.open_orders - 1 in
      let left = entry.notional - notional in
      if (open_orders == 0) && (left == 0)
      then record st { per_account = HashMap.remove account st.per_account }
      else set_account account (record { open_orders = open_orders; notional = left }) st
]

-- A u128 product.
unfoldable pub notional_of : Price → Qty → ℕ
notional_of price qty = price * qty % 2 ^ 128

-- The distance of two i128 prices, `(p - r).unsigned_abs()`.
abbrev pub distance : ℕ → ℕ → ℕ
distance p r = (p - r) + (r - p)

unfoldable pub check_price_band : Price → Option Price → Result RejectReason (Unit {0})
check_price_band price none = ok tt
check_price_band price (some reference) =
    ok_or (checked_mul u128_max (distance price reference) 10_000) price_band >>= λ lhs.
    ok_or (checked_mul u128_max reference price_band_bps) price_band >>= λ rhs.
    guard (leb lhs rhs) price_band

unfoldable pub check_account_limits :
    AccountId → Price → Qty → RiskState → Result RejectReason (Unit {0})
check_account_limits account effective_price qty st =
    let entry = account_of account st in
    ok_or (checked_add u32_max entry.open_orders 1) max_open_orders >>= λ new_open.
    guard (leb new_open max_open_orders_per_acct) max_open_orders
    >> (ok_or (checked_add u128_max entry.notional (notional_of effective_price qty)) max_notional
        >>= λ new_notional. guard (leb new_notional max_notional_per_acct) max_notional)

-- A limit order is checked at its own price, a market order at the best price of the other side.
unfoldable pub effective_price : OrderType → Option Price → Option Price → Result RejectReason Price
effective_price limit price best_opposite = ok_or price malformed_message
effective_price market price best_opposite = ok_or best_opposite market_order_in_empty_book

unfoldable pub check_new_order :
    NewOrder → Option Price → RiskState → Result RejectReason (Unit {0})
check_new_order msg best_opposite st =
    guard (not st.kill_switch) kill_switched
    >> (effective_price msg.order_type msg.price best_opposite >>= λ p.
        check_price_band p st.last_trade_price >> check_account_limits msg.account_id p msg.qty st)

unfoldable pub check_cancel : CancelOrder → RiskState → Result RejectReason (Unit {0})
check_cancel msg st = guard (not st.kill_switch) kill_switched

unfoldable pub check_cancel_replace : CancelReplace → RiskState → Result RejectReason (Unit {0})
check_cancel_replace msg st =
    guard (not st.kill_switch) kill_switched
    >> (check_price_band msg.new_price st.last_trade_price
        >> guard (leb (notional_of msg.new_price msg.new_qty) max_notional_per_acct) max_notional)

unfoldable pub check_mass_cancel : MassCancel → RiskState → Result RejectReason (Unit {0})
check_mass_cancel msg st = guard (not st.kill_switch) kill_switched
