-- ===== src/Wire/Inbound/NewOrders.antt =====
-- crates/wire/src/inbound/new_order.rs: decoding and encoding of a new order.
use hft_clob_core.Prelude.{
  ℕ, ◌^◌, ◌<◌, ◌≡◌, refl, Result, ok, ◌>>=◌, ◌>>◌, guard, ok_or, map_err, Option, none, some, List,
  ◌++◌, ◌==◌, length, arith,
}
use hft_clob_core.Prelude.Int.{ℤ, pos, IsI64, as_u64, as_i64, as_u64-lt, as_i64-as_u64}
use hft_clob_core.Domain.Error
use hft_clob_core.Domain.Side
use hft_clob_core.Domain.Side.{Side, Side-IsCode}
use hft_clob_core.Domain.OrderType
use hft_clob_core.Domain.OrderType.{OrderType, OrderType-IsCode, limit, market}
use hft_clob_core.Domain.Tif
use hft_clob_core.Domain.Tif.{Tif, Tif-IsCode}
use hft_clob_core.Domain.Price
use hft_clob_core.Domain.Price.{Price, IsPrice}
use hft_clob_core.Domain.Qty
use hft_clob_core.Domain.Qty.{Qty, IsQty}
use hft_clob_core.Domain.OrderId
use hft_clob_core.Domain.OrderId.{OrderId, IsOrderId}
use hft_clob_core.Domain.AccountId
use hft_clob_core.Domain.AccountId.{AccountId, IsAccountId}
use hft_clob_core.Wire.Error.{WireError, domain, non_zero_pad, payload_size}
use hft_clob_core.Wire.Inbound.{NewOrder}
use hft_clob_core.Wire.Layout.{Layout, IsLayout}

pub record NewOrderWire : Type 0 where
  pub client_ts : ℕ
  pub order_id : ℕ
  pub account_id : ℕ
  pub side : ℕ
  pub order_type : ℕ
  pub tif : ℕ
  pub pad0 : ℕ
  pub price : ℤ
  pub qty : ℕ

-- The widths of the fields.
pub record FitsNewOrder (w : NewOrderWire) : Type 0 where
  pub client_ts : w.client_ts < 2 ^ 64
  pub order_id : w.order_id < 2 ^ 64
  pub account_id : w.account_id < 2 ^ 32
  pub side : w.side < 256
  pub order_type : w.order_type < 256
  pub tif : w.tif < 256
  pub pad0 : w.pad0 < 256
  pub price : IsI64 w.price
  pub qty : w.qty < 2 ^ 64

-- A limit order has a price, a market order has none.
unfoldable pub price_of : OrderType → ℤ → Result WireError (Option Price)
price_of market p = ok none
price_of limit p = map_err (λ e. domain (Error.price e)) (Price.new p) >>= λ q. ok (some q)

-- The checks of the fields, in the order of the source.
unfoldable pub validate : NewOrderWire → Result WireError NewOrder
unfolding price_of
validate w =
    guard (w.pad0 == 0) (non_zero_pad 23)
    >> (map_err (λ e. domain (Error.order_id e)) (OrderId.new w.order_id) >>= λ order_id.
        map_err (λ e. domain (Error.account_id e)) (AccountId.new w.account_id) >>= λ account_id.
        map_err (λ e. domain (Error.side e)) (Side.try_from w.side) >>= λ side.
        map_err (λ e. domain (Error.order_type e)) (OrderType.try_from w.order_type)
        >>= λ order_type. map_err (λ e. domain (Error.tif e)) (Tif.try_from w.tif) >>= λ tif.
            map_err (λ e. domain (Error.qty e)) (Qty.new w.qty) >>= λ qty.
            price_of order_type w.price >>= λ price. ok (record {
              client_ts = as_i64 w.client_ts;
              order_id = order_id;
              account_id = account_id;
              side = side;
              order_type = order_type;
              tif = tif;
              price = price;
              qty = qty;
            }))

-- An order without a price is written with a price of 0.
unfoldable pub to_wire : NewOrder → NewOrderWire
to_wire m = record {
  client_ts = as_u64 m.client_ts;
  order_id = m.order_id;
  account_id = m.account_id;
  side = Side.as_u8 m.side;
  order_type = OrderType.as_u8 m.order_type;
  tif = Tif.as_u8 m.tif;
  pad0 = 0;
  price = elim m.price [ none ↦ pos 0 | some p ↦ pos p ];
  qty = m.qty;
}

-- A new order whose fields are valid, with a price exactly if it is a limit order.
abbrev pub IsPriced : OrderType → Option Price → Type 0
IsPriced limit none = ⊥
IsPriced limit (some p) = IsPrice p
IsPriced market none = Unit {0}
IsPriced market (some p) = ⊥

pub record IsNewOrder (m : NewOrder) : Type 0 where
  pub client_ts : IsI64 m.client_ts
  pub order_id : IsOrderId m.order_id
  pub account_id : IsAccountId m.account_id
  pub priced : IsPriced m.order_type m.price
  pub qty : IsQty m.qty

price_of-to_wire :
    (t : OrderType) (p : Option Price)
    → IsPriced t p
    → price_of t (elim p [ none ↦ pos 0 | some q ↦ pos q ]) ≡ ok p
unfolding price_of
price_of-to_wire limit none h = absurd h
price_of-to_wire limit (some p) h = rw (Price.new_ticks p h) refl
price_of-to_wire market none h = refl
price_of-to_wire market (some p) h = absurd h

validate-to_wire : (m : NewOrder) → IsNewOrder m → validate (to_wire m) ≡ ok m
unfolding validate to_wire
validate-to_wire m v =
    rw
      (
        OrderId.new_raw m.order_id v.order_id.0,
        AccountId.new_raw m.account_id v.account_id.0,
        Side-IsCode.decode-encode m.side,
        OrderType-IsCode.decode-encode m.order_type,
        Tif-IsCode.decode-encode m.tif,
        Qty.new_lots m.qty v.qty.0,
        price_of-to_wire m.order_type m.price v.priced,
        as_i64-as_u64 m.client_ts v.client_ts,
      )
      refl

to_wire-FitsNewOrder : (m : NewOrder) → IsNewOrder m → FitsNewOrder (to_wire m)
unfolding to_wire
to_wire-FitsNewOrder m v = record {
  client_ts = as_u64-lt m.client_ts v.client_ts;
  order_id = v.order_id.1;
  account_id = v.account_id.1;
  side = Side-IsCode.is_byte m.side;
  order_type = OrderType-IsCode.is_byte m.order_type;
  tif = Tif-IsCode.is_byte m.tif;
  pad0 = omega arith;
  price = price_fits m.order_type m.price v.priced;
  qty = v.qty.1;
}
  where
    price_fits :
        (t : OrderType) (p : Option Price)
        → IsPriced t p
        → IsI64 (elim p [ none ↦ pos 0 | some q ↦ pos q ])
    price_fits t none h = omega arith
    price_fits limit (some p) h = h.1
    price_fits market (some p) h = absurd h

module _ ⦃lay : Layout NewOrderWire⦄ where
  unfoldable pub parse : List ℕ → Result WireError NewOrder
  parse payload = ok_or (lay.ref_from_bytes payload) (payload_size 40 (length payload)) >>= validate

  unfoldable pub encode : NewOrder → List ℕ → List ℕ
  encode m out = out ++ lay.as_bytes (to_wire m)

  -- Where the packed layout reads back what it writes, a new order with valid fields, and a price
  -- exactly if it is a limit order, is appended to the buffer as a payload that is read back as that
  -- order.
  pub parse-encode :
      IsLayout FitsNewOrder lay
      → (m : NewOrder) (out : List ℕ) → IsNewOrder m
      → (payload : List ℕ) × (encode m out ≡ out ++ payload) × (parse payload ≡ ok m)
  unfolding encode parse
  parse-encode law m out v = (
    lay.as_bytes (to_wire m),
    refl,
    rw (law.ref_from_bytes-as_bytes (to_wire m) (to_wire-FitsNewOrder m v)) (validate-to_wire m v),
  )
