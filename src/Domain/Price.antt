-- ===== src/Domain/Price.antt =====
-- crates/domain/src/types/price.rs. A `Price` holds a positive i64, so a price of the model is the
-- number of its ticks.
use hft_clob_core.Prelude.{ℕ, ◌%◌, ◌≤◌, ◌<◌, ◌^◌, ◌≡◌, Result, ok, err, ◌==◌, if◌then◌else◌, arith}
use hft_clob_core.Prelude.Int.{ℤ, pos, negsuc, IsI64}
use hft_clob_core.Domain.Consts.{tick_size}

abbrev pub Price : Type 0
Price = ℕ

pub data PriceError : Type 0 where
  non_positive tick_violation : PriceError

unfoldable pub new : ℤ → Result PriceError Price
new (pos n) =
    if n == 0 then err non_positive else if n % tick_size == 0 then ok n else err tick_violation
new (negsuc n) = err non_positive

-- The invariant of the newtype.
abbrev pub IsPrice : Price → Type 0
IsPrice p = (1 ≤ p) × (p < 2 ^ 63)

pub new-IsPrice : (t : ℤ) (p : Price) → IsI64 t → new t ≡ ok p → IsPrice p
unfolding new
new-IsPrice (pos n) p h e = ground arith
new-IsPrice (negsuc n) p h e = ground arith

pub new_ticks : (p : Price) → IsPrice p → new (pos p) ≡ ok p
unfolding new
new_ticks p h = ground arith
