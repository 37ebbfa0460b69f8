-- ===== src/Matching/Sweep.antt =====
-- What matching promises, on plain lists: an incoming order trades with the resting orders best
-- price first and oldest first, and stops at its limit, at its last lot, or at an order of its own
-- account. Nothing here mentions maps, indices, snapshots or fuel.
pub mod Equations
pub mod Laws
use hft_clob_core.Prelude.{
  ℕ, ◌+◌, ◌-◌, Bool, true, false, List, [], ◌∷◌, ◌++◌, map, Option, none, some, ltb, ◌==◌,
  if◌then◌else◌,
}
use hft_clob_core.Domain.Price.{Price}
use hft_clob_core.Domain.Qty.{Qty}
use hft_clob_core.Domain.OrderId.{OrderId}
use hft_clob_core.Matching.Queue.{PlOrder}

pub record Trade : Type 0 where
  pub maker : OrderId
  pub price : Price
  pub qty : Qty
  pub full : Bool

-- `stopped` is the order of the taker's account that ended the sweep.
pub record Swept : Type 0 where
  pub trades : List Trade
  pub rest : ℕ
  pub left : List PlOrder
  pub stopped : Option PlOrder

-- The orders of one price, oldest first; `own i` tells the orders of the taker's account.
module _ (own : OrderId → Bool) (price : Price) where
  unfoldable pub sweep_queue : List PlOrder → ℕ → Swept
  sweep_queue [] r = record { trades = []; rest = r; left = []; stopped = none }
  sweep_queue (o ∷ os) r =
      let next = sweep_queue os (r - o.quantity) in
      if r == 0
      then record { trades = []; rest = r; left = o ∷ os; stopped = none }
      else if own o.id
      then record { trades = []; rest = r; left = os; stopped = some o }
      else if ltb r o.quantity
      then record {
        trades = record { maker = o.id; price = price; qty = r; full = false } ∷ [];
        rest = 0;
        left = record o { quantity = o.quantity - r } ∷ os;
        stopped = none;
      }
      else record next {
        trades =
            record { maker = o.id; price = price; qty = o.quantity; full = true } ∷ next.trades;
      }

-- The levels of one side, best first, without empty ones.
abbrev pub Ladder : Type 0
Ladder = List (Price × List PlOrder)

pub record SweptLadder : Type 0 where
  pub trades : List Trade
  pub rest : ℕ
  pub left : Ladder
  pub stopped : Option (Price × PlOrder)

abbrev pub keep_level : Price → List PlOrder → Ladder → Ladder
keep_level p [] lv = lv
keep_level p (o ∷ os) lv = (p, o ∷ os) ∷ lv

-- A ladder at which the sweep stops as it stands.
abbrev pub unswept : Ladder → ℕ → SweptLadder
unswept lv r = record { trades = []; rest = r; left = lv; stopped = none }

-- The level `p` has been swept, and the ladder below it may be.
abbrev pub after_level : Price → Swept → SweptLadder → Ladder → SweptLadder
after_level p d below lv = elim d.stopped [
  | none ↦ record {
    trades = d.trades ++ below.trades;
    rest = below.rest;
    left = keep_level p d.left below.left;
    stopped = below.stopped;
  }
  | some o ↦ record {
    trades = d.trades;
    rest = d.rest;
    left = keep_level p d.left lv;
    stopped = some (p, o);
  }
]

-- `crosses p` tells the prices within the limit.
module _ (own : OrderId → Bool) (crosses : Price → Bool) where
  unfoldable pub sweep : Ladder → ℕ → SweptLadder
  sweep [] r = unswept [] r
  sweep ((p, q) ∷ lv) r =
      let d = sweep_queue own p q r in
      let below = sweep lv d.rest in
      if r == 0
      then unswept ((p, q) ∷ lv) r
      else if crosses p
      then after_level p d below lv
      else unswept ((p, q) ∷ lv) r
