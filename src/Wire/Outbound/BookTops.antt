-- ===== src/Wire/Outbound/BookTops.antt =====
-- crates/wire/src/outbound/book_update_top.rs: decoding and encoding of the top of the book.
use hft_clob_core.Prelude.{
  ℕ, ◌^◌, ◌<◌, ◌≡◌, refl, Result, ok, err, ◌>>=◌, ok_or, map_err, Option, none, some, List, ◌++◌,
  length, Bool, false, not, ◌&&◌, ◌==◌, if◌then◌else◌, arith,
}
use hft_clob_core.Prelude.Int.{ℤ, pos, negsuc, IsI64, as_u64, as_i64, as_u64-lt, as_i64-as_u64}
use hft_clob_core.Domain.Error
use hft_clob_core.Domain.Price
use hft_clob_core.Domain.Price.{Price, IsPrice}
use hft_clob_core.Domain.Qty
use hft_clob_core.Domain.Qty.{Qty, IsQty}
use hft_clob_core.Wire.Error.{WireError, domain, inconsistent_payload, payload_size}
use hft_clob_core.Wire.Layout.{Layout, IsLayout}
use hft_clob_core.Wire.Outbound.{BookUpdateTop}

pub record BookUpdateTopWire : Type 0 where
  pub engine_seq : ℕ
  pub bid_price : ℤ
  pub bid_qty : ℕ
  pub ask_price : ℤ
  pub ask_qty : ℕ
  pub emit_ts : ℕ

-- The widths of the fields.
pub record FitsBookUpdateTop (w : BookUpdateTopWire) : Type 0 where
  pub engine_seq : w.engine_seq < 2 ^ 64
  pub bid_price : IsI64 w.bid_price
  pub bid_qty : w.bid_qty < 2 ^ 64
  pub ask_price : IsI64 w.ask_price
  pub ask_qty : w.ask_qty < 2 ^ 64
  pub emit_ts : w.emit_ts < 2 ^ 64

abbrev pub is_zero : ℤ → Bool
is_zero (pos n) = n == 0
is_zero (negsuc n) = false

-- A side is empty on both fields or on none.
unfoldable pub decode_side : ℤ → ℕ → Result WireError (Option (Price × Qty))
decode_side price qty =
    if is_zero price && qty == 0
    then ok none
    else if not (is_zero price) && not (qty == 0)
    then (map_err (λ e. domain (Error.price e)) (Price.new price) >>= λ p.
        map_err (λ e. domain (Error.qty e)) (Qty.new qty) >>= λ q. ok (some (p, q)))
    else err inconsistent_payload

unfoldable pub encode_side : Option (Price × Qty) → ℤ × ℕ
encode_side none = (pos 0, 0)
encode_side (some (p, q)) = (pos p, q)

unfoldable pub validate : BookUpdateTopWire → Result WireError BookUpdateTop
unfolding decode_side
validate w = decode_side w.bid_price w.bid_qty >>= λ bid.
    decode_side w.ask_price w.ask_qty >>= λ ask.
    ok (record { engine_seq = w.engine_seq; bid = bid; ask = ask; emit_ts = as_i64 w.emit_ts })

unfoldable pub to_wire : BookUpdateTop → BookUpdateTopWire
to_wire m =
    let (bid_price, bid_qty) = encode_side m.bid in
    let (ask_price, ask_qty) = encode_side m.ask in
    record {
      engine_seq = m.engine_seq;
      bid_price = bid_price;
      bid_qty = bid_qty;
      ask_price = ask_price;
      ask_qty = ask_qty;
      emit_ts = as_u64 m.emit_ts;
    }

abbrev pub IsTop : Option (Price × Qty) → Type 0
IsTop none = Unit {0}
IsTop (some (p, q)) = IsPrice p × IsQty q

pub record IsBookUpdateTop (m : BookUpdateTop) : Type 0 where
  pub engine_seq : m.engine_seq < 2 ^ 64
  pub bid : IsTop m.bid
  pub ask : IsTop m.ask
  pub emit_ts : IsI64 m.emit_ts

decode_side-encode_side :
    (s : Option (Price × Qty))
    → IsTop s
    → IsI64 (encode_side s).0
      × ((encode_side s).1 < 2 ^ 64)
      × (decode_side (encode_side s).0 (encode_side s).1 ≡ ok s)
unfolding decode_side encode_side
decode_side-encode_side none h = (omega arith, omega arith, refl)
decode_side-encode_side (some (p, q)) h =
    let some_ticks : (p == 0) ≡ false = ground arith in
    let some_lots : (q == 0) ≡ false = ground arith in
    (h.0.1, h.1.1, rw (some_ticks, some_lots, Price.new_ticks p h.0, Qty.new_lots q h.1.0) refl)

validate-to_wire : (m : BookUpdateTop) → IsBookUpdateTop m → validate (to_wire m) ≡ ok m
unfolding validate to_wire
validate-to_wire m v =
    rw
      (
        (decode_side-encode_side m.bid v.bid).2,
        (decode_side-encode_side m.ask v.ask).2,
        as_i64-as_u64 m.emit_ts v.emit_ts,
      )
      refl

to_wire-FitsBookUpdateTop : (m : BookUpdateTop) → IsBookUpdateTop m → FitsBookUpdateTop (to_wire m)
unfolding to_wire
to_wire-FitsBookUpdateTop m v = record {
  engine_seq = v.engine_seq;
  bid_price = (decode_side-encode_side m.bid v.bid).0;
  bid_qty = (decode_side-encode_side m.bid v.bid).1;
  ask_price = (decode_side-encode_side m.ask v.ask).0;
  ask_qty = (decode_side-encode_side m.ask v.ask).1;
  emit_ts = as_u64-lt m.emit_ts v.emit_ts;
}

module _ ⦃lay : Layout BookUpdateTopWire⦄ where
  unfoldable pub parse : List ℕ → Result WireError BookUpdateTop
  parse payload = ok_or (lay.ref_from_bytes payload) (payload_size 48 (length payload)) >>= validate

  unfoldable pub encode : BookUpdateTop → List ℕ → List ℕ
  encode m out = out ++ lay.as_bytes (to_wire m)

  -- Where the packed layout reads back what it writes, the top of a book with valid fields, its
  -- sides empty or not, is appended to the buffer as a payload that is read back as that top.
  pub book_update_top-parse-encode :
      IsLayout FitsBookUpdateTop lay
      → (m : BookUpdateTop) (out : List ℕ) → IsBookUpdateTop m
      → (payload : List ℕ) × (encode m out ≡ out ++ payload) × (parse payload ≡ ok m)
  unfolding encode parse
  book_update_top-parse-encode law m out v = (
    lay.as_bytes (to_wire m),
    refl,
    rw (law.ref_from_bytes-as_bytes (to_wire m) (to_wire-FitsBookUpdateTop m v))
        (validate-to_wire m v),
  )
