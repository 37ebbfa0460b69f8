-- ===== src/Tests/Accounts.antt =====
-- The theorems on the risk checks at concrete inputs.
use hft_clob_core.Prelude.{◌*◌, ◌≡◌, ◌↔◌, refl, none, some, ok, arith}
use hft_clob_core.Prelude.Int.{pos}
use hft_clob_core.Domain.Side.{bid}
use hft_clob_core.Domain.Tif.{gtc}
use hft_clob_core.Domain.OrderType.{limit}
use hft_clob_core.Wire.Inbound.{NewOrder}
use hft_clob_core.Collections.HashMap
use hft_clob_core.Risk
use hft_clob_core.Risk.{
  RiskState, AccountState, new_risk, set_kill_switch, on_fill, account_of, on_order_resting,
  on_order_removed, notional_of, check_account_limits, check_price_band, check_new_order,
  check_cancel, check_cancel_replace, check_mass_cancel,
}
use hft_clob_core.Risk.Limits.{
  IsWithinCaps, on_order_resting-IsWithinCaps, removed_after_resting, checked_order_rests,
}
use hft_clob_core.Risk.Checks.{
  IsAdmissibleAt, IsInBand, notional_of_exact, check_price_band_iff, check_new_order_iff,
}

-- One order of 500 lots at 100 rests for account 7, and the last trade was at 100.
busy : RiskState
busy = on_fill 100 (on_order_resting 7 50_000 new_risk).0

new_risk-IsWithinCaps : IsWithinCaps new_risk
unfolding Risk.account_of
new_risk-IsWithinCaps a = (omega arith, omega arith)

busy-IsWithinCaps : IsWithinCaps busy
unfolding busy Risk.on_fill Risk.account_of
busy-IsWithinCaps = on_order_resting-IsWithinCaps 7 50_000 new_risk new_risk-IsWithinCaps

order : NewOrder
order = record {
  client_ts = pos 0;
  order_id = 3;
  account_id = 7;
  side = bid;
  order_type = limit;
  tif = gtc;
  price = some 104;
  qty = 10;
}

check_new_order_iff_example :
    (check_new_order order none busy ≡ ok tt) ↔ IsAdmissibleAt (some 104) order busy
unfolding order busy Risk.on_fill Risk.on_order_resting Risk.one_more Risk.account_of
check_new_order_iff_example =
    check_new_order_iff order none busy refl (omega arith, omega arith) (omega arith, omega arith)
      (omega arith, omega arith)

check_price_band_iff_example : (check_price_band 106 (some 100) ≡ ok tt) ↔ IsInBand 106 (some 100)
check_price_band_iff_example =
    check_price_band_iff 106 (some 100) (omega arith, omega arith) (omega arith, omega arith)

notional_of_exact_example : notional_of 104 10 ≡ 104 * 10
notional_of_exact_example =
    notional_of_exact 104 10 (omega arith, omega arith) (omega arith, omega arith)

on_order_resting-IsWithinCaps_example : IsWithinCaps (on_order_resting 7 1_040 busy).0
on_order_resting-IsWithinCaps_example = on_order_resting-IsWithinCaps 7 1_040 busy busy-IsWithinCaps

removed_after_resting_example :
    account_of 7 (on_order_removed 7 1_040 (on_order_resting 7 1_040 busy).0) ≡ account_of 7 busy
unfolding busy Risk.on_fill Risk.on_order_resting Risk.one_more Risk.account_of HashMap.insert
removed_after_resting_example = removed_after_resting 7 7 1_040 busy refl

checked_order_rests_example : (on_order_resting 7 (notional_of 104 10) busy).1 ≡ ok tt
unfolding busy Risk.on_fill Risk.on_order_resting Risk.one_more Risk.account_of HashMap.insert
    Risk.check_account_limits Risk.notional_of
checked_order_rests_example = checked_order_rests 7 104 10 busy refl
