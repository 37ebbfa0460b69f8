-- ===== src/Domain/Consts.antt =====
-- crates/domain/src/consts.rs: the policy constants, and the widths of the machine integers.
use hft_clob_core.Prelude.{ℕ}

abbrev pub tick_size : ℕ
tick_size = 1

abbrev pub lot_size : ℕ
lot_size = 1

abbrev pub price_band_bps : ℕ
price_band_bps = 500

abbrev pub max_open_orders_per_acct : ℕ
max_open_orders_per_acct = 1_000

abbrev pub max_notional_per_acct : ℕ
max_notional_per_acct = 10_000_000_000

abbrev pub u32_max : ℕ
u32_max = 0xffff_ffff

abbrev pub u64_max : ℕ
u64_max = 0xffff_ffff_ffff_ffff

abbrev pub u128_max : ℕ
u128_max = 0xffff_ffff_ffff_ffff_ffff_ffff_ffff_ffff
