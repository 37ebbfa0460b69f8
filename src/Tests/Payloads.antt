-- ===== src/Tests/Payloads.antt =====
-- The packed little-endian layout of a new order, and the theorem on payloads at a concrete input.
use hft_clob_core.Prelude.{ℕ, ◌≡◌, refl, List, [], ◌∷◌, ◌++◌, Option, some, ok, arith}
use hft_clob_core.Prelude.Int.{pos, as_u64, as_i64, as_u64-lt, as_i64-as_u64}
use hft_clob_core.Domain.Side.{bid}
use hft_clob_core.Domain.Tif.{gtc}
use hft_clob_core.Domain.OrderType.{limit}
use hft_clob_core.Wire.Bytes.{le_bytes}
use hft_clob_core.Tests.Bytes.{read_le, read_le-le_bytes, and_then, at_end}
use hft_clob_core.Wire.Inbound.{NewOrder}
use hft_clob_core.Wire.Layout.{Layout, IsLayout}
use hft_clob_core.Wire.Inbound.NewOrders.{
  NewOrderWire, FitsNewOrder, IsNewOrder, parse, encode, parse-encode,
}

read_order : List ℕ → Option NewOrderWire
read_order bs = and_then (read_le 8 bs) λ client_ts bs. and_then (read_le 8 bs) λ order_id bs.
    and_then (read_le 4 bs) λ account_id bs. and_then (read_le 1 bs) λ side bs.
      and_then (read_le 1 bs) λ order_type bs. and_then (read_le 1 bs) λ tif bs.
        and_then (read_le 1 bs) λ pad0 bs. and_then (read_le 8 bs) λ price bs.
          and_then (read_le 8 bs) λ qty bs. at_end bs (record {
            client_ts = client_ts;
            order_id = order_id;
            account_id = account_id;
            side = side;
            order_type = order_type;
            tif = tif;
            pad0 = pad0;
            price = as_i64 price;
            qty = qty;
          })

write_order : NewOrderWire → List ℕ
write_order w =
    le_bytes 8 w.client_ts
    ++ (le_bytes 8 w.order_id
        ++ (le_bytes 4 w.account_id
            ++ (le_bytes 1 w.side
                ++ (le_bytes 1 w.order_type
                    ++ (le_bytes 1 w.tif
                        ++ (le_bytes 1 w.pad0
                            ++ (le_bytes 8 (as_u64 w.price) ++ (le_bytes 8 w.qty ++ []))))))))

instance abbrev packed : Layout NewOrderWire
packed = record { ref_from_bytes = read_order; as_bytes = write_order }

packed-IsLayout : IsLayout FitsNewOrder packed
unfolding read_order write_order
packed-IsLayout = record {
  ref_from_bytes-as_bytes = λ w h.
      rw
        (
          read_le-le_bytes 8 w.client_ts _ h.client_ts,
          read_le-le_bytes 8 w.order_id _ h.order_id,
          read_le-le_bytes 4 w.account_id _ h.account_id,
          read_le-le_bytes 1 w.side _ h.side,
          read_le-le_bytes 1 w.order_type _ h.order_type,
          read_le-le_bytes 1 w.tif _ h.tif,
          read_le-le_bytes 1 w.pad0 _ h.pad0,
          read_le-le_bytes 8 (as_u64 w.price) _ (as_u64-lt w.price h.price),
          read_le-le_bytes 8 w.qty _ h.qty,
          as_i64-as_u64 w.price h.price,
        )
        refl;
}

order : NewOrder
order = record {
  client_ts = pos 1_700_000_000;
  order_id = 42;
  account_id = 7;
  side = bid;
  order_type = limit;
  tif = gtc;
  price = some 100;
  qty = 5;
}

order-IsNewOrder : IsNewOrder order
unfolding order
order-IsNewOrder = record {
  client_ts = omega arith;
  order_id = (omega arith, omega arith);
  account_id = (omega arith, omega arith);
  priced = (omega arith, omega arith);
  qty = (omega arith, omega arith);
}

parse-encode_example :
    (payload : List ℕ) × (encode order (1 ∷ []) ≡ (1 ∷ []) ++ payload) × (parse payload ≡ ok order)
parse-encode_example = parse-encode packed-IsLayout order (1 ∷ []) order-IsNewOrder
