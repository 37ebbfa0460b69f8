-- ===== src/Domain/Qty.antt =====
-- crates/domain/src/types/qty.rs. A quantity of the model is the number of its lots.
use hft_clob_core.Prelude.{ℕ, ◌%◌, ◌≤◌, ◌<◌, ◌^◌, ◌≡◌, Result, ok, err, ◌==◌, if◌then◌else◌, arith}
use hft_clob_core.Domain.Consts.{lot_size}

abbrev pub Qty : Type 0
Qty = ℕ

pub data QtyError : Type 0 where
  zero_lots lot_violation : QtyError

unfoldable pub new : ℕ → Result QtyError Qty
new lots =
    if lots == 0 then err zero_lots else if lots % lot_size == 0 then ok lots else err lot_violation

-- `Qty::MIN`
abbrev pub min_qty : Qty
min_qty = lot_size

-- The invariant of the newtype.
abbrev pub IsQty : Qty → Type 0
IsQty q = (1 ≤ q) × (q < 2 ^ 64)

pub new-IsQty : (n : ℕ) (q : Qty) → n < 2 ^ 64 → new n ≡ ok q → IsQty q
unfolding new
new-IsQty n q h e = ground arith

pub new_lots : (q : Qty) → 1 ≤ q → new q ≡ ok q
unfolding new
new_lots q h = ground arith
