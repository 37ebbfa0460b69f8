-- ===== src/Wire/Outbound/LevelDeltas.antt =====
-- crates/wire/src/outbound/book_update_l2_delta.rs: decoding and encoding of a level delta.
use hft_clob_core.Prelude.{
  ℕ, ◌^◌, ◌<◌, ◌≡◌, refl, Result, ok, ◌>>=◌, ◌>>◌, ok_or, map_err, Option, none, some, get_or, List,
  ◌++◌, length, ◌==◌, if◌then◌else◌, arith,
}
use hft_clob_core.Prelude.Int.{ℤ, pos, IsI64, as_u64, as_i64, as_u64-lt, as_i64-as_u64}
use hft_clob_core.Domain.Error
use hft_clob_core.Domain.Side
use hft_clob_core.Domain.Side.{Side-IsCode}
use hft_clob_core.Domain.Price
use hft_clob_core.Domain.Price.{IsPrice}
use hft_clob_core.Domain.Qty
use hft_clob_core.Domain.Qty.{Qty, IsQty}
use hft_clob_core.Wire.Error.{WireError, domain, payload_size}
use hft_clob_core.Wire.Layout.{Layout, IsLayout}
use hft_clob_core.Wire.Padding.{check_pad, IsPad, zeroes, check_pad-zeroes, zeroes-IsPad}
use hft_clob_core.Wire.Outbound.{BookUpdateL2Delta}

pub record BookUpdateL2DeltaWire : Type 0 where
  pub engine_seq : ℕ
  pub price : ℤ
  pub new_qty : ℕ
  pub side : ℕ
  pub pad0 : List ℕ
  pub emit_ts : ℕ

-- The widths of the fields.
pub record FitsL2Delta (w : BookUpdateL2DeltaWire) : Type 0 where
  pub engine_seq : w.engine_seq < 2 ^ 64
  pub price : IsI64 w.price
  pub new_qty : w.new_qty < 2 ^ 64
  pub side : w.side < 256
  pub pad0 : IsPad 7 w.pad0
  pub emit_ts : w.emit_ts < 2 ^ 64

-- 0 says that the level is removed.
unfoldable pub read_new_qty : ℕ → Result WireError (Option Qty)
read_new_qty raw =
    if raw == 0
    then ok none
    else map_err (λ e. domain (Error.qty e)) (Qty.new raw) >>= λ q. ok (some q)

unfoldable pub validate : BookUpdateL2DeltaWire → Result WireError BookUpdateL2Delta
unfolding read_new_qty
validate w =
    check_pad 25 w.pad0
    >> (read_new_qty w.new_qty >>= λ new_qty.
        map_err (λ e. domain (Error.price e)) (Price.new w.price) >>= λ price.
        map_err (λ e. domain (Error.side e)) (Side.try_from w.side) >>= λ side. ok (record {
          engine_seq = w.engine_seq;
          price = price;
          new_qty = new_qty;
          side = side;
          emit_ts = as_i64 w.emit_ts;
        }))

unfoldable pub to_wire : BookUpdateL2Delta → BookUpdateL2DeltaWire
to_wire m = record {
  engine_seq = m.engine_seq;
  price = pos m.price;
  new_qty = get_or m.new_qty 0;
  side = Side.as_u8 m.side;
  pad0 = zeroes 7;
  emit_ts = as_u64 m.emit_ts;
}

abbrev pub IsNewQty : Option Qty → Type 0
IsNewQty none = Unit {0}
IsNewQty (some q) = IsQty q

pub record IsL2Delta (m : BookUpdateL2Delta) : Type 0 where
  pub engine_seq : m.engine_seq < 2 ^ 64
  pub price : IsPrice m.price
  pub new_qty : IsNewQty m.new_qty
  pub emit_ts : IsI64 m.emit_ts

read_new_qty_lem :
    (q : Option Qty) → IsNewQty q → (get_or q 0 < 2 ^ 64) × (read_new_qty (get_or q 0) ≡ ok q)
unfolding read_new_qty
read_new_qty_lem none h = (omega arith, refl)
read_new_qty_lem (some q) h = ground (arith, Qty.new_lots q h.0)

validate-to_wire : (m : BookUpdateL2Delta) → IsL2Delta m → validate (to_wire m) ≡ ok m
unfolding validate to_wire
validate-to_wire m v =
    rw
      (
        check_pad-zeroes 7 25,
        (read_new_qty_lem m.new_qty v.new_qty).1,
        Price.new_ticks m.price v.price,
        Side-IsCode.decode-encode m.side,
        as_i64-as_u64 m.emit_ts v.emit_ts,
      )
      refl

to_wire-FitsL2Delta : (m : BookUpdateL2Delta) → IsL2Delta m → FitsL2Delta (to_wire m)
unfolding to_wire
to_wire-FitsL2Delta m v = record {
  engine_seq = v.engine_seq;
  price = v.price.1;
  new_qty = (read_new_qty_lem m.new_qty v.new_qty).0;
  side = Side-IsCode.is_byte m.side;
  pad0 = zeroes-IsPad 7;
  emit_ts = as_u64-lt m.emit_ts v.emit_ts;
}

module _ ⦃lay : Layout BookUpdateL2DeltaWire⦄ where
  unfoldable pub parse : List ℕ → Result WireError BookUpdateL2Delta
  parse payload = ok_or (lay.ref_from_bytes payload) (payload_size 40 (length payload)) >>= validate

  unfoldable pub encode : BookUpdateL2Delta → List ℕ → List ℕ
  encode m out = out ++ lay.as_bytes (to_wire m)

  -- Where the packed layout reads back what it writes, a level delta with valid fields is appended
  -- to the buffer as a payload that is read back as that delta, also if it removes the level.
  pub l2_delta-parse-encode :
      IsLayout FitsL2Delta lay
      → (m : BookUpdateL2Delta) (out : List ℕ) → IsL2Delta m
      → (payload : List ℕ) × (encode m out ≡ out ++ payload) × (parse payload ≡ ok m)
  unfolding encode parse
  l2_delta-parse-encode law m out v = (
    lay.as_bytes (to_wire m),
    refl,
    rw (law.ref_from_bytes-as_bytes (to_wire m) (to_wire-FitsL2Delta m v)) (validate-to_wire m v),
  )
