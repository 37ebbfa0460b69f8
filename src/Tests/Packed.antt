-- ===== src/Tests/Packed.antt =====
-- The packed little-endian layouts of the other fixed-size messages, and the theorem on frames of
-- messages at a concrete input.
use hft_clob_core.Prelude.{
  ℕ, zero, suc, ◌<◌, ◌≤◌, ◌≡◌, refl, ap, List, [], ◌∷◌, ◌++◌, Option, none, some, ok, length, take,
  drop, take-append_exact, drop-append_exact, length-append, arith,
}
use hft_clob_core.Prelude.Int.{pos, as_u64, as_i64, as_u64-lt, as_i64-as_u64}
use hft_clob_core.Wire.Bytes.{le_bytes, length-le_bytes}
use hft_clob_core.Tests.Bytes.{read_le, read_le-le_bytes, and_then, at_end}
use hft_clob_core.Tests.Reports
use hft_clob_core.Tests.Reports.{packed}
use hft_clob_core.Wire.Layout.{Layout, IsLayout}
use hft_clob_core.Wire.Outbound.{BookUpdateTop, book_update_top}
use hft_clob_core.Wire.Outbound.ExecReports.{ExecReportWire}
use hft_clob_core.Wire.Outbound.TradePrints.{TradePrintWire, FitsTradePrint}
use hft_clob_core.Wire.Outbound.BookTops.{BookUpdateTopWire, FitsBookUpdateTop, IsBookUpdateTop}
use hft_clob_core.Wire.Outbound.LevelDeltas.{BookUpdateL2DeltaWire, FitsL2Delta}
use hft_clob_core.Marketdata.{encode, decode}
use hft_clob_core.Marketdata.RoundTrip.{ArePacked, decode-encode}

-- Reserved bytes.
abbrev and_take : {A : Type 0} → ℕ → List ℕ → (List ℕ → List ℕ → Option A) → Option A
and_take k bs f = f (take k bs) (drop k bs)

take_whole : (n : ℕ) (xs : List ℕ) → length xs ≡ n → take n xs ≡ xs
take_whole zero [] h = refl
take_whole zero (x ∷ xs) h = absurd (omega arith)
take_whole (suc n) [] h = absurd (omega arith)
take_whole (suc n) (x ∷ xs) h = ap (◌∷◌ x) (take_whole n xs (omega arith))

length-take : (n : ℕ) (xs : List ℕ) → length (take n xs) ≤ n
length-take zero xs = omega arith
length-take (suc n) [] = omega arith
length-take (suc n) (x ∷ xs) = omega (arith, length-take n xs)

read_trade_print : List ℕ → Option TradePrintWire
read_trade_print bs = and_then (read_le 8 bs) λ engine_seq bs.
    and_then (read_le 8 bs) λ trade_id bs. and_then (read_le 8 bs) λ price bs.
      and_then (read_le 8 bs) λ qty bs. and_then (read_le 1 bs) λ aggressor_side bs.
        and_take 7 bs λ pad0 bs. and_then (read_le 8 bs) λ emit_ts bs. at_end bs (record {
          engine_seq = engine_seq;
          trade_id = trade_id;
          price = as_i64 price;
          qty = qty;
          aggressor_side = aggressor_side;
          pad0 = pad0;
          emit_ts = emit_ts;
        })

write_trade_print : TradePrintWire → List ℕ
write_trade_print w =
    le_bytes 8 w.engine_seq
    ++ (le_bytes 8 w.trade_id
        ++ (le_bytes 8 (as_u64 w.price)
            ++ (le_bytes 8 w.qty
                ++ (le_bytes 1 w.aggressor_side
                    ++ (take 7 w.pad0 ++ (le_bytes 8 w.emit_ts ++ []))))))

instance abbrev packed_trade_print : Layout TradePrintWire
packed_trade_print = record { ref_from_bytes = read_trade_print; as_bytes = write_trade_print }

packed_trade_print-IsLayout : IsLayout FitsTradePrint packed_trade_print
unfolding read_trade_print write_trade_print
packed_trade_print-IsLayout = record {
  ref_from_bytes-as_bytes = λ w h.
      rw
        (
          take_whole 7 w.pad0 h.pad0.0,
          read_le-le_bytes 8 w.engine_seq _ h.engine_seq,
          read_le-le_bytes 8 w.trade_id _ h.trade_id,
          read_le-le_bytes 8 (as_u64 w.price) _ (as_u64-lt w.price h.price),
          read_le-le_bytes 8 w.qty _ h.qty,
          read_le-le_bytes 1 w.aggressor_side _ h.aggressor_side,
          take-append_exact 7 w.pad0 _ h.pad0.0,
          drop-append_exact 7 w.pad0 _ h.pad0.0,
          read_le-le_bytes 8 w.emit_ts _ h.emit_ts,
          as_i64-as_u64 w.price h.price,
        )
        refl;
}

length-write_trade_print : (w : TradePrintWire) → length (write_trade_print w) < 0xffff_ffff
unfolding write_trade_print
length-write_trade_print w =
    rw
      (
        length-le_bytes 8 w.engine_seq,
        length-le_bytes 8 w.trade_id,
        length-le_bytes 8 (as_u64 w.price),
        length-le_bytes 8 w.qty,
        length-le_bytes 1 w.aggressor_side,
        length-append (take 7 w.pad0),
        length-le_bytes 8 w.emit_ts,
      )
      (omega (arith, length-take 7 w.pad0))

read_top : List ℕ → Option BookUpdateTopWire
read_top bs = and_then (read_le 8 bs) λ engine_seq bs. and_then (read_le 8 bs) λ bid_price bs.
    and_then (read_le 8 bs) λ bid_qty bs. and_then (read_le 8 bs) λ ask_price bs.
      and_then (read_le 8 bs) λ ask_qty bs. and_then (read_le 8 bs) λ emit_ts bs.
        at_end bs (record {
          engine_seq = engine_seq;
          bid_price = as_i64 bid_price;
          bid_qty = bid_qty;
          ask_price = as_i64 ask_price;
          ask_qty = ask_qty;
          emit_ts = emit_ts;
        })

write_top : BookUpdateTopWire → List ℕ
write_top w =
    le_bytes 8 w.engine_seq
    ++ (le_bytes 8 (as_u64 w.bid_price)
        ++ (le_bytes 8 w.bid_qty
            ++ (le_bytes 8 (as_u64 w.ask_price)
                ++ (le_bytes 8 w.ask_qty ++ (le_bytes 8 w.emit_ts ++ [])))))

instance abbrev packed_top : Layout BookUpdateTopWire
packed_top = record { ref_from_bytes = read_top; as_bytes = write_top }

packed_top-IsLayout : IsLayout FitsBookUpdateTop packed_top
unfolding read_top write_top
packed_top-IsLayout = record {
  ref_from_bytes-as_bytes = λ w h.
      rw
        (
          read_le-le_bytes 8 w.engine_seq _ h.engine_seq,
          read_le-le_bytes 8 (as_u64 w.bid_price) _ (as_u64-lt w.bid_price h.bid_price),
          read_le-le_bytes 8 w.bid_qty _ h.bid_qty,
          read_le-le_bytes 8 (as_u64 w.ask_price) _ (as_u64-lt w.ask_price h.ask_price),
          read_le-le_bytes 8 w.ask_qty _ h.ask_qty,
          read_le-le_bytes 8 w.emit_ts _ h.emit_ts,
          as_i64-as_u64 w.bid_price h.bid_price,
          as_i64-as_u64 w.ask_price h.ask_price,
        )
        refl;
}

length-write_top : (w : BookUpdateTopWire) → length (write_top w) < 0xffff_ffff
unfolding write_top
length-write_top w =
    rw
      (
        length-le_bytes 8 w.engine_seq,
        length-le_bytes 8 (as_u64 w.bid_price),
        length-le_bytes 8 w.bid_qty,
        length-le_bytes 8 (as_u64 w.ask_price),
        length-le_bytes 8 w.ask_qty,
        length-le_bytes 8 w.emit_ts,
      )
      (omega arith)

read_delta : List ℕ → Option BookUpdateL2DeltaWire
read_delta bs = and_then (read_le 8 bs) λ engine_seq bs. and_then (read_le 8 bs) λ price bs.
    and_then (read_le 8 bs) λ new_qty bs. and_then (read_le 1 bs) λ side bs.
      and_take 7 bs λ pad0 bs. and_then (read_le 8 bs) λ emit_ts bs. at_end bs (record {
        engine_seq = engine_seq;
        price = as_i64 price;
        new_qty = new_qty;
        side = side;
        pad0 = pad0;
        emit_ts = emit_ts;
      })

write_delta : BookUpdateL2DeltaWire → List ℕ
write_delta w =
    le_bytes 8 w.engine_seq
    ++ (le_bytes 8 (as_u64 w.price)
        ++ (le_bytes 8 w.new_qty
            ++ (le_bytes 1 w.side ++ (take 7 w.pad0 ++ (le_bytes 8 w.emit_ts ++ [])))))

instance abbrev packed_delta : Layout BookUpdateL2DeltaWire
packed_delta = record { ref_from_bytes = read_delta; as_bytes = write_delta }

packed_delta-IsLayout : IsLayout FitsL2Delta packed_delta
unfolding read_delta write_delta
packed_delta-IsLayout = record {
  ref_from_bytes-as_bytes = λ w h.
      rw
        (
          take_whole 7 w.pad0 h.pad0.0,
          read_le-le_bytes 8 w.engine_seq _ h.engine_seq,
          read_le-le_bytes 8 (as_u64 w.price) _ (as_u64-lt w.price h.price),
          read_le-le_bytes 8 w.new_qty _ h.new_qty,
          read_le-le_bytes 1 w.side _ h.side,
          take-append_exact 7 w.pad0 _ h.pad0.0,
          drop-append_exact 7 w.pad0 _ h.pad0.0,
          read_le-le_bytes 8 w.emit_ts _ h.emit_ts,
          as_i64-as_u64 w.price h.price,
        )
        refl;
}

length-write_delta : (w : BookUpdateL2DeltaWire) → length (write_delta w) < 0xffff_ffff
unfolding write_delta
length-write_delta w =
    rw
      (
        length-le_bytes 8 w.engine_seq,
        length-le_bytes 8 (as_u64 w.price),
        length-le_bytes 8 w.new_qty,
        length-le_bytes 1 w.side,
        length-append (take 7 w.pad0),
        length-le_bytes 8 w.emit_ts,
      )
      (omega (arith, length-take 7 w.pad0))

length-write_report : (w : ExecReportWire) → length (Reports.write_report w) < 0xffff_ffff
unfolding Reports.write_report
length-write_report w =
    rw
      (
        length-le_bytes 8 w.engine_seq,
        length-le_bytes 8 w.order_id,
        length-le_bytes 4 w.account_id,
        length-le_bytes 1 w.state,
        length-le_bytes 1 w.reject_reason,
        length-le_bytes 1 w.cancel_reason,
        length-le_bytes 1 w.pad0,
        length-le_bytes 8 (as_u64 w.fill_price),
        length-le_bytes 8 w.fill_qty,
        length-le_bytes 8 w.leaves_qty,
        length-le_bytes 8 w.recv_ts,
        length-le_bytes 8 w.emit_ts,
      )
      (omega arith)

packed_all : ArePacked Reports.packed packed_trade_print packed_top packed_delta
packed_all = record {
  exec_report = (Reports.packed-IsLayout, length-write_report);
  trade_print = (packed_trade_print-IsLayout, length-write_trade_print);
  book_update_top = (packed_top-IsLayout, length-write_top);
  book_update_l2_delta = (packed_delta-IsLayout, length-write_delta);
}

-- A book with a bid and no offer.
abbrev top : BookUpdateTop
top = record { engine_seq = 5; bid = some (100, 7); ask = none; emit_ts = pos 9 }

top-IsBookUpdateTop : IsBookUpdateTop top
top-IsBookUpdateTop = record {
  engine_seq = omega arith;
  bid = ((omega arith, omega arith), (omega arith, omega arith));
  ask = tt;
  emit_ts = omega arith;
}

decode-encode_example :
    (whole : List ℕ) × (encode (book_update_top top) (1 ∷ []) ≡ some (ok ((1 ∷ []) ++ whole)))
    × (decode (whole ++ (2 ∷ [])) ≡ ok (book_update_top top, length whole))
decode-encode_example =
    decode-encode packed_all (book_update_top top) (1 ∷ []) (2 ∷ []) top-IsBookUpdateTop
