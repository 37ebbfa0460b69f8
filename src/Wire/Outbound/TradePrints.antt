-- ===== src/Wire/Outbound/TradePrints.antt =====
-- crates/wire/src/outbound/trade_print.rs: decoding and encoding of a trade print.
use hft_clob_core.Prelude.{
  ℕ, ◌^◌, ◌<◌, ◌≡◌, refl, Result, ok, ◌>>=◌, ◌>>◌, ok_or, map_err, List, ◌++◌, length,
}
use hft_clob_core.Prelude.Int.{ℤ, pos, IsI64, as_u64, as_i64, as_u64-lt, as_i64-as_u64}
use hft_clob_core.Domain.Error
use hft_clob_core.Domain.Side
use hft_clob_core.Domain.Side.{Side-IsCode}
use hft_clob_core.Domain.Price
use hft_clob_core.Domain.Price.{IsPrice}
use hft_clob_core.Domain.Qty
use hft_clob_core.Domain.Qty.{IsQty}
use hft_clob_core.Wire.Error.{WireError, domain, payload_size}
use hft_clob_core.Wire.Layout.{Layout, IsLayout}
use hft_clob_core.Wire.Padding.{check_pad, IsPad, zeroes, check_pad-zeroes, zeroes-IsPad}
use hft_clob_core.Wire.Outbound.{TradePrint}

pub record TradePrintWire : Type 0 where
  pub engine_seq : ℕ
  pub trade_id : ℕ
  pub price : ℤ
  pub qty : ℕ
  pub aggressor_side : ℕ
  pub pad0 : List ℕ
  pub emit_ts : ℕ

-- The widths of the fields.
pub record FitsTradePrint (w : TradePrintWire) : Type 0 where
  pub engine_seq : w.engine_seq < 2 ^ 64
  pub trade_id : w.trade_id < 2 ^ 64
  pub price : IsI64 w.price
  pub qty : w.qty < 2 ^ 64
  pub aggressor_side : w.aggressor_side < 256
  pub pad0 : IsPad 7 w.pad0
  pub emit_ts : w.emit_ts < 2 ^ 64

unfoldable pub validate : TradePrintWire → Result WireError TradePrint
validate w =
    check_pad 33 w.pad0
    >> (map_err (λ e. domain (Error.price e)) (Price.new w.price) >>= λ price.
        map_err (λ e. domain (Error.qty e)) (Qty.new w.qty) >>= λ qty.
        map_err (λ e. domain (Error.side e)) (Side.try_from w.aggressor_side) >>= λ aggressor_side.
        ok (record {
          engine_seq = w.engine_seq;
          trade_id = w.trade_id;
          price = price;
          qty = qty;
          aggressor_side = aggressor_side;
          emit_ts = as_i64 w.emit_ts;
        }))

unfoldable pub to_wire : TradePrint → TradePrintWire
to_wire m = record {
  engine_seq = m.engine_seq;
  trade_id = m.trade_id;
  price = pos m.price;
  qty = m.qty;
  aggressor_side = Side.as_u8 m.aggressor_side;
  pad0 = zeroes 7;
  emit_ts = as_u64 m.emit_ts;
}

pub record IsTradePrint (m : TradePrint) : Type 0 where
  pub engine_seq : m.engine_seq < 2 ^ 64
  pub trade_id : m.trade_id < 2 ^ 64
  pub price : IsPrice m.price
  pub qty : IsQty m.qty
  pub emit_ts : IsI64 m.emit_ts

validate-to_wire : (m : TradePrint) → IsTradePrint m → validate (to_wire m) ≡ ok m
unfolding validate to_wire
validate-to_wire m v =
    rw
      (
        check_pad-zeroes 7 33,
        Price.new_ticks m.price v.price,
        Qty.new_lots m.qty v.qty.0,
        Side-IsCode.decode-encode m.aggressor_side,
        as_i64-as_u64 m.emit_ts v.emit_ts,
      )
      refl

to_wire-FitsTradePrint : (m : TradePrint) → IsTradePrint m → FitsTradePrint (to_wire m)
unfolding to_wire
to_wire-FitsTradePrint m v = record {
  engine_seq = v.engine_seq;
  trade_id = v.trade_id;
  price = v.price.1;
  qty = v.qty.1;
  aggressor_side = Side-IsCode.is_byte m.aggressor_side;
  pad0 = zeroes-IsPad 7;
  emit_ts = as_u64-lt m.emit_ts v.emit_ts;
}

module _ ⦃lay : Layout TradePrintWire⦄ where
  unfoldable pub parse : List ℕ → Result WireError TradePrint
  parse payload = ok_or (lay.ref_from_bytes payload) (payload_size 48 (length payload)) >>= validate

  unfoldable pub encode : TradePrint → List ℕ → List ℕ
  encode m out = out ++ lay.as_bytes (to_wire m)

  -- Where the packed layout reads back what it writes, a trade print with valid fields is appended
  -- to the buffer as a payload that is read back as that print.
  pub trade_print-parse-encode :
      IsLayout FitsTradePrint lay
      → (m : TradePrint) (out : List ℕ) → IsTradePrint m
      → (payload : List ℕ) × (encode m out ≡ out ++ payload) × (parse payload ≡ ok m)
  unfolding encode parse
  trade_print-parse-encode law m out v = (
    lay.as_bytes (to_wire m),
    refl,
    rw (law.ref_from_bytes-as_bytes (to_wire m) (to_wire-FitsTradePrint m v))
        (validate-to_wire m v),
  )
