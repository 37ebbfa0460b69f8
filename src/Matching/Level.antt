-- ===== src/Matching/Level.antt =====
-- The level container of the crate `pricelevel`, which is not part of the repository: its
-- operations as crates/matching/src/book.rs calls them, and what that file relies on.
use hft_clob_core.Prelude.{ℕ, ◌≤◌, ◌≡◌, List, [], Option, some, Result, ok, length, sum_by}
use hft_clob_core.Matching.Queue
use hft_clob_core.Matching.Queue.{PlOrder}

pub data PlOrderUpdate : Type 0 where
  cancel : ℕ → PlOrderUpdate
  update_quantity : ℕ → ℕ → PlOrderUpdate

-- The book tells a duplicate from every other failure.
pub data PriceLevelError : Type 0 where
  duplicate_order_id : ℕ → PriceLevelError
  other_error : PriceLevelError

-- The operations. `snapshot_orders` and `total_quantity` may fail; `add_order` leaves the level as
-- it was when it fails, so that a failure carries no level.
pub record PriceLevel (L : Type 0) : Type 0 where
  pub new : ℕ → L
  pub add_order : L → PlOrder → Result PriceLevelError L
  pub update_order : L → PlOrderUpdate → L
  pub snapshot_orders : L → Option (List PlOrder)
  pub iter_orders : L → List PlOrder
  pub order_count : L → ℕ
  pub total_quantity : L → Option ℕ

-- What book.rs relies on, over `queue`, the orders of a level by time of arrival: a snapshot lists
-- them in that order, an iteration in any order, and a reduced order keeps its place.
pub record IsPriceLevel {L : Type 0} (pl : PriceLevel L) : Type 0 where
  pub queue : L → List PlOrder
  pub queue-new : (p : ℕ) → queue (pl.new p) ≡ []
  pub queue-add_order :
      (l : L) (o : PlOrder) (l' : L)
      → pl.add_order l o ≡ ok l'
      → queue l' ≡ Queue.insert_by_time o (queue l)
  pub queue-cancel :
      (l : L) (i : ℕ) → queue (pl.update_order l (cancel i)) ≡ Queue.remove i (queue l)
  pub queue-update_quantity :
      (l : L) (i q : ℕ) (o : PlOrder)
      → Queue.find i (queue l) ≡ some o
      → 1 ≤ q
      → q ≤ o.quantity
      → queue (pl.update_order l (update_quantity i q)) ≡ Queue.set_quantity i q (queue l)
  pub snapshot_orders_lem :
      (l : L) (os : List PlOrder) → pl.snapshot_orders l ≡ some os → os ≡ queue l
  pub find-iter_orders : (l : L) (i : ℕ) → Queue.find i (pl.iter_orders l) ≡ Queue.find i (queue l)
  pub order_count_lem : (l : L) → pl.order_count l ≡ length (queue l)
  pub total_quantity_lem :
      (l : L) (n : ℕ) → pl.total_quantity l ≡ some n → n ≡ sum_by (λ o. o.quantity) (queue l)
