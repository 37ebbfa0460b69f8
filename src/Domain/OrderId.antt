-- ===== src/Domain/OrderId.antt =====
-- crates/domain/src/types/order_id.rs: a non-zero u64.
use hft_clob_core.Prelude.{ℕ, ◌≤◌, ◌<◌, ◌^◌, ◌≡◌, Result, ok, err, ◌==◌, if◌then◌else◌, arith}

abbrev pub OrderId : Type 0
OrderId = ℕ

pub data OrderIdError : Type 0 where
  zero_id : OrderIdError

unfoldable pub new : ℕ → Result OrderIdError OrderId
new id = if id == 0 then err zero_id else ok id

abbrev pub IsOrderId : OrderId → Type 0
IsOrderId i = (1 ≤ i) × (i < 2 ^ 64)

pub new_raw : (i : OrderId) → 1 ≤ i → new i ≡ ok i
unfolding new
new_raw i h = ground arith
