-- ===== src/Tests/Fifo.antt =====
-- A level that is the list of its orders, and the counters of crates/engine/src/ids.rs without
-- their overflow: instances at which the model runs.
use hft_clob_core.Prelude.{
  refl, List, [], some, Result, ok, err, length, sum_by, arith, if◌then◌else◌,
}
use hft_clob_core.Matching.Queue
use hft_clob_core.Matching.Queue.{PlOrder}
use hft_clob_core.Matching.Level.{
  PriceLevel, IsPriceLevel, PlOrderUpdate, PriceLevelError, cancel, update_quantity,
  duplicate_order_id,
}

unfoldable pub update : List PlOrder → PlOrderUpdate → List PlOrder
update l (cancel i) = Queue.remove i l
update l (update_quantity i q) = Queue.set_quantity i q l

unfoldable pub add : List PlOrder → PlOrder → Result PriceLevelError (List PlOrder)
add l o = if Queue.has o.id l then err (duplicate_order_id o.id) else ok (Queue.insert_by_time o l)

instance abbrev pub fifo : PriceLevel (List PlOrder)
fifo = record {
  new = λ p. [];
  add_order = add;
  update_order = update;
  snapshot_orders = some;
  iter_orders = λ l. l;
  order_count = length;
  total_quantity = λ l. some (sum_by (λ o. o.quantity) l);
}

pub fifo-IsPriceLevel : IsPriceLevel fifo
unfolding update add
fifo-IsPriceLevel = record {
  queue = λ l. l;
  queue-new = λ p. refl;
  queue-add_order = λ l o l' h. ground arith;
  queue-cancel = λ l i. refl;
  queue-update_quantity = λ l i q o h a b. refl;
  snapshot_orders_lem = λ l os h. ground arith;
  find-iter_orders = λ l i. refl;
  order_count_lem = λ l. refl;
  total_quantity_lem = λ l n h. ground arith;
}
