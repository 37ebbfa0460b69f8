-- ===== src/Wire/Inbound/CancelReplaces.antt =====
-- crates/wire/src/inbound/cancel_replace.rs: decoding and encoding of a cancel-replace.
use hft_clob_core.Prelude.{
  ℕ, ◌^◌, ◌<◌, ◌≡◌, refl, Result, ok, ◌>>=◌, ◌>>◌, guard, ok_or, map_err, List, ◌++◌, ◌==◌, length,
  arith,
}
use hft_clob_core.Prelude.Int.{ℤ, pos, IsI64, as_u64, as_i64, as_u64-lt, as_i64-as_u64}
use hft_clob_core.Domain.Error
use hft_clob_core.Domain.Price
use hft_clob_core.Domain.Price.{IsPrice}
use hft_clob_core.Domain.Qty
use hft_clob_core.Domain.Qty.{IsQty}
use hft_clob_core.Domain.OrderId
use hft_clob_core.Domain.OrderId.{IsOrderId}
use hft_clob_core.Domain.AccountId
use hft_clob_core.Domain.AccountId.{IsAccountId}
use hft_clob_core.Wire.Error.{WireError, domain, non_zero_pad, payload_size}
use hft_clob_core.Wire.Layout.{Layout, IsLayout}
use hft_clob_core.Wire.Inbound.{CancelReplace}

pub record CancelReplaceWire : Type 0 where
  pub client_ts : ℕ
  pub order_id : ℕ
  pub account_id : ℕ
  pub pad0 : ℕ
  pub new_price : ℤ
  pub new_qty : ℕ

-- The widths of the fields.
pub record FitsCancelReplace (w : CancelReplaceWire) : Type 0 where
  pub client_ts : w.client_ts < 2 ^ 64
  pub order_id : w.order_id < 2 ^ 64
  pub account_id : w.account_id < 2 ^ 32
  pub pad0 : w.pad0 < 2 ^ 32
  pub new_price : IsI64 w.new_price
  pub new_qty : w.new_qty < 2 ^ 64

unfoldable pub validate : CancelReplaceWire → Result WireError CancelReplace
validate w =
    guard (w.pad0 == 0) (non_zero_pad 20)
    >> (map_err (λ e. domain (Error.order_id e)) (OrderId.new w.order_id) >>= λ order_id.
        map_err (λ e. domain (Error.account_id e)) (AccountId.new w.account_id) >>= λ account_id.
        map_err (λ e. domain (Error.price e)) (Price.new w.new_price) >>= λ new_price.
        map_err (λ e. domain (Error.qty e)) (Qty.new w.new_qty) >>= λ new_qty. ok (record {
          client_ts = as_i64 w.client_ts;
          order_id = order_id;
          account_id = account_id;
          new_price = new_price;
          new_qty = new_qty;
        }))

unfoldable pub to_wire : CancelReplace → CancelReplaceWire
to_wire m = record {
  client_ts = as_u64 m.client_ts;
  order_id = m.order_id;
  account_id = m.account_id;
  pad0 = 0;
  new_price = pos m.new_price;
  new_qty = m.new_qty;
}

pub record IsCancelReplace (m : CancelReplace) : Type 0 where
  pub client_ts : IsI64 m.client_ts
  pub order_id : IsOrderId m.order_id
  pub account_id : IsAccountId m.account_id
  pub new_price : IsPrice m.new_price
  pub new_qty : IsQty m.new_qty

validate-to_wire : (m : CancelReplace) → IsCancelReplace m → validate (to_wire m) ≡ ok m
unfolding validate to_wire
validate-to_wire m v =
    rw
      (
        OrderId.new_raw m.order_id v.order_id.0,
        AccountId.new_raw m.account_id v.account_id.0,
        Price.new_ticks m.new_price v.new_price,
        Qty.new_lots m.new_qty v.new_qty.0,
        as_i64-as_u64 m.client_ts v.client_ts,
      )
      refl

to_wire-FitsCancelReplace : (m : CancelReplace) → IsCancelReplace m → FitsCancelReplace (to_wire m)
unfolding to_wire
to_wire-FitsCancelReplace m v = record {
  client_ts = as_u64-lt m.client_ts v.client_ts;
  order_id = v.order_id.1;
  account_id = v.account_id.1;
  pad0 = omega arith;
  new_price = v.new_price.1;
  new_qty = v.new_qty.1;
}

module _ ⦃lay : Layout CancelReplaceWire⦄ where
  unfoldable pub parse : List ℕ → Result WireError CancelReplace
  parse payload = ok_or (lay.ref_from_bytes payload) (payload_size 40 (length payload)) >>= validate

  unfoldable pub encode : CancelReplace → List ℕ → List ℕ
  encode m out = out ++ lay.as_bytes (to_wire m)

  -- Where the packed layout reads back what it writes, a cancel-replace with valid fields is appended to
  -- the buffer as a payload that is read back as the same message.
  pub cancel_replace-parse-encode :
      IsLayout FitsCancelReplace lay
      → (m : CancelReplace) (out : List ℕ) → IsCancelReplace m
      → (payload : List ℕ) × (encode m out ≡ out ++ payload) × (parse payload ≡ ok m)
  unfolding encode parse
  cancel_replace-parse-encode law m out v = (
    lay.as_bytes (to_wire m),
    refl,
    rw (law.ref_from_bytes-as_bytes (to_wire m) (to_wire-FitsCancelReplace m v))
        (validate-to_wire m v),
  )
