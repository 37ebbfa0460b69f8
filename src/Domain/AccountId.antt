-- ===== src/Domain/AccountId.antt =====
-- crates/domain/src/types/account_id.rs: a non-zero u32.
use hft_clob_core.Prelude.{ℕ, ◌≤◌, ◌<◌, ◌^◌, ◌≡◌, Result, ok, err, ◌==◌, if◌then◌else◌, arith}

abbrev pub AccountId : Type 0
AccountId = ℕ

pub data AccountIdError : Type 0 where
  zero_id : AccountIdError

unfoldable pub new : ℕ → Result AccountIdError AccountId
new id = if id == 0 then err zero_id else ok id

abbrev pub IsAccountId : AccountId → Type 0
IsAccountId i = (1 ≤ i) × (i < 2 ^ 32)

pub new_raw : (i : AccountId) → 1 ≤ i → new i ≡ ok i
unfolding new
new_raw i h = ground arith
