-- ===== src/Matching/Walk/Stamps.antt =====
-- The fills and the cancellation records that report a sweep.
use hft_clob_core.Prelude.{ℕ, suc, ◌≡◌, refl, ap, List, [], ◌∷◌, ◌++◌, Option, none, some, length}
use hft_clob_core.Domain.Side
use hft_clob_core.Domain.Side.{Side, bid, ask}
use hft_clob_core.Domain.Price.{Price}
use hft_clob_core.Matching.Types.{AggressiveOrder, Fill, StpCancellation, IdGenerator}
use hft_clob_core.Matching.Queue.{PlOrder}
use hft_clob_core.Matching.Sweep.{Trade}

-- The fill that reports a trade of the sweep.
abbrev pub stamp : AggressiveOrder → ℕ → Trade → Fill
stamp taker n t = record {
  trade_id = n;
  maker_order_id = t.maker;
  taker_order_id = taker.order_id;
  maker_side = Side.opposite taker.side;
  price = t.price;
  qty = t.qty;
  maker_fully_filled = t.full;
}

-- The record of the order that stopped the sweep.
abbrev pub stp_record : AggressiveOrder → Price → PlOrder → StpCancellation
stp_record taker p o = record {
  order_id = o.id;
  account_id = taker.account_id;
  side = Side.opposite taker.side;
  price = p;
  qty = o.quantity;
}

abbrev pub stp_records : AggressiveOrder → Price → Option PlOrder → List StpCancellation
stp_records taker p none = []
stp_records taker p (some o) = stp_record taker p o ∷ []

module _ {G : Type 0} ⦃gen : IdGenerator G⦄ where
  -- The fills of a list of trades under consecutive ids, and the generator after them.
  unfoldable pub issued : AggressiveOrder → G → List Trade → List Fill
  issued taker g [] = []
  issued taker g (t ∷ ts) =
      stamp taker (gen.next_trade_id g).0 t ∷ issued taker (gen.next_trade_id g).1 ts

  unfoldable pub ids_after : G → List Trade → G
  ids_after g [] = g
  ids_after g (t ∷ ts) = ids_after (gen.next_trade_id g).1 ts

  pub issued-append :
      (taker : AggressiveOrder) (g : G) (ts us : List Trade)
      → issued taker g (ts ++ us) ≡ issued taker g ts ++ issued taker (ids_after g ts) us
  unfolding issued ids_after
  issued-append taker g [] us = refl
  issued-append taker g (t ∷ ts) us = rw (issued-append taker (gen.next_trade_id g).1 ts us)

  pub ids_after-append :
      (g : G) (ts us : List Trade) → ids_after g (ts ++ us) ≡ ids_after (ids_after g ts) us
  unfolding ids_after
  ids_after-append g [] us = refl
  ids_after-append g (t ∷ ts) us = ids_after-append (gen.next_trade_id g).1 ts us

  pub length-issued :
      (taker : AggressiveOrder) (g : G) (ts : List Trade) → length (issued taker g ts) ≡ length ts
  unfolding issued
  length-issued taker g [] = refl
  length-issued taker g (t ∷ ts) = ap suc (length-issued taker (gen.next_trade_id g).1 ts)
