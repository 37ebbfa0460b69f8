-- ===== src/Matching/Consistency/Entering.antt =====
-- The book after an order has entered its level.
use hft_clob_core.Prelude.{
  ℕ, ◌+◌, ◌≤◌, ◌≡◌, refl, ◌∙◌, sym, subst, true, false, List, [], ◌∷◌, ◌++◌, Option, none, get_or,
  length-append, ok, ◌==◌, if◌then◌else◌, arith,
}
use hft_clob_core.Collections.BTreeMap
use hft_clob_core.Collections.BTreeSet
use hft_clob_core.Collections.HashMap
use hft_clob_core.Domain.Side.{Side, bid, ask}
use hft_clob_core.Domain.Price.{Price}
use hft_clob_core.Domain.OrderId.{OrderId}
use hft_clob_core.Domain.AccountId.{AccountId}
use hft_clob_core.Matching.Types.{RestingOrder}
use hft_clob_core.Matching.Queue
use hft_clob_core.Matching.Queue.{IsQueue, PlOrder}
use hft_clob_core.Matching.Level.{PriceLevel, IsPriceLevel}
use hft_clob_core.Matching.Book.{Book, level_at, put_level}
use hft_clob_core.Matching.Resting.{pl_order, meta_of, add_to_account, add_to_indices}
use hft_clob_core.Matching.View.{
  same_place, queue_at, queue_at-put_level, level_at-put_level, level_at-add_to_indices,
  level_at-bump, queue_at-add_to_indices, queue_at-bump, queue_at-same_place,
}
use hft_clob_core.Matching.Consistency.{in_set, IsAccountSet, IsConsistent, IsPruned}

pub in_set-add_to_account :
    (a a' : AccountId) (i j : OrderId) (m : ℕ → Option (List ℕ))
    → in_set (add_to_account a i m a') j
      ≡ (if a' == a then (if j == i then true else in_set (m a) j) else in_set (m a') j)
unfolding add_to_account HashMap.insert BTreeSet.contains
in_set-add_to_account a a' i j m = ground (arith, BTreeSet.contains-insert j i (get_or (m a) []))

insert-ne-empty : (i : OrderId) (s : List ℕ) → BTreeSet.is_empty (BTreeSet.insert i s) ≡ false
unfolding BTreeSet.insert
insert-ne-empty i [] = refl
insert-ne-empty i (j ∷ s) = ground arith

add_to_account-IsAccountSet :
    (a a' : AccountId) (i : OrderId) (m : ℕ → Option (List ℕ))
    → IsAccountSet (m a)
    → IsAccountSet (m a')
    → IsAccountSet (add_to_account a i m a')
unfolding add_to_account HashMap.insert
add_to_account-IsAccountSet a a' i m h h' =
    ground
      (arith, BTreeSet.insert-IsAscending i (get_or (m a) []), insert-ne-empty i (get_or (m a) []))

module _ {L : Type 0} ⦃pl : PriceLevel L⦄ ⦃law : IsPriceLevel pl⦄ where
  -- The level that an order enters.
  abbrev pub entry_level : RestingOrder → Book L → L
  entry_level o b = get_or (level_at o.side o.price b) (pl.new o.price)

  pub queue-entry_level :
      (o : RestingOrder) (b : Book L) → law.queue (entry_level o b) ≡ queue_at o.side o.price b
  unfolding queue_at
  queue-entry_level o b = ground (arith, law.queue-new o.price)

  -- The book after the level `l'` has taken the order.
  abbrev pub entered : RestingOrder → L → Book L → Book L
  entered o l' b = add_to_indices o (put_level o.side o.price l' (record b { seq = b.seq + 1 }))

  -- What is known when the level has taken a new order.
  module _ (o : RestingOrder) (b : Book L) (l' : L) (c : IsConsistent b)
      (added : pl.add_order (entry_level o b) (pl_order o (b.seq + 1)) ≡ ok l') where
    -- Time priority: the new order stands behind all others of its price.
    pub queue-entered : law.queue l' ≡ queue_at o.side o.price b ++ pl_order o (b.seq + 1) ∷ []
    unfolding pl_order
    queue-entered =
        law.queue-add_order _ _ l' added
        ∙ rw (queue-entry_level o b)
            (Queue.insert_by_time-append b.seq _ _ (c.queues o.side o.price) (omega arith))

    pub queue_at-entered :
        (s : Side) (p : Price)
        → queue_at s p (entered o l' b) ≡ (
            if same_place o.side o.price s p
            then queue_at s p b ++ pl_order o (b.seq + 1) ∷ []
            else queue_at s p b)
    queue_at-entered s p = ground (
      arith,
      queue-entered,
      queue_at-add_to_indices s p o (put_level o.side o.price l' (record b { seq = b.seq + 1 })),
      queue_at-put_level s p o.side o.price l' (record b { seq = b.seq + 1 }),
      queue_at-bump s p (b.seq + 1) b,
      queue_at-same_place o.side s o.price p b,
    )

    pub entered-IsAscending :
        BTreeMap.IsAscending (entered o l' b).bids × BTreeMap.IsAscending (entered o l' b).asks
    unfolding add_to_indices
    entered-IsAscending =
        elim o.side
          as (λ s.
            BTreeMap.IsAscending
              (add_to_indices o (put_level s o.price l' (record b { seq = b.seq + 1 }))).bids
            × BTreeMap.IsAscending
                (add_to_indices o (put_level s o.price l' (record b { seq = b.seq + 1 }))).asks) [
                  | bid ↦
                      (BTreeMap.insert-IsAscending o.price l' b.bids c.bids_ascend, c.asks_ascend)
                  | ask ↦
                      (c.bids_ascend, BTreeMap.insert-IsAscending o.price l' b.asks c.asks_ascend)
                ]

    pub entered-tables :
        ((entered o l' b).index ≡ HashMap.insert o.order_id (meta_of o) b.index)
        × ((entered o l' b).by_account ≡ add_to_account o.account_id o.order_id b.by_account)
        × ((entered o l' b).seq ≡ b.seq + 1)
    unfolding add_to_indices
    entered-tables =
        elim o.side
          as (λ s.
            let e = add_to_indices o (put_level s o.price l' (record b { seq = b.seq + 1 })) in
            (e.index ≡ HashMap.insert o.order_id (meta_of o) b.index)
            × (e.by_account ≡ add_to_account o.account_id o.order_id b.by_account)
            × (e.seq ≡ b.seq + 1)) [ bid ↦ (refl, refl, refl) | ask ↦ (refl, refl, refl) ]

    module _ (fresh : b.index o.order_id ≡ none) (positive : 1 ≤ o.qty) where
      entered-queues : (s : Side) (p : Price) → IsQueue (b.seq + 1) (queue_at s p (entered o l' b))
      unfolding pl_order
      entered-queues s p = ground (
        arith,
        queue_at-entered s p,
        c.located s p o.order_id,
        c.queues s p,
        Queue.append_one-IsQueue b.seq (pl_order o (b.seq + 1)) (queue_at s p b),
        Queue.IsQueue-mono b.seq (b.seq + 1) (queue_at s p b),
      )

      -- An order that the level has taken leaves a consistent book.
      pub entered-IsConsistent : IsConsistent (entered o l' b)
      unfolding meta_of HashMap.insert pl_order
      entered-IsConsistent = record {
        bids_ascend = entered-IsAscending.0;
        asks_ascend = entered-IsAscending.1;
        queues = λ s p.
            subst (λ n. IsQueue n (queue_at s p (entered o l' b))) (sym entered-tables.2)
              (entered-queues s p);
        located = λ s p i. ground (
          arith,
          queue_at-entered s p,
          Queue.has-append_one i (pl_order o (b.seq + 1)) (queue_at s p b),
          c.located s p i,
          entered-tables,
        );
        owned = λ a i. ground (
          arith,
          entered-tables,
          in_set-add_to_account o.account_id a o.order_id i b.by_account,
          c.owned a i,
          c.owned o.account_id i,
        );
        account_sets = λ a. ground (
          arith,
          entered-tables,
          add_to_account-IsAccountSet o.account_id a o.order_id b.by_account
              (c.account_sets o.account_id) (c.account_sets a),
        );
      }

    pub entered-IsPruned : IsPruned b → IsPruned (entered o l' b)
    entered-IsPruned h s p = ground (
      arith,
      h s p,
      level_at-bump s p (b.seq + 1) b,
      level_at-add_to_indices s p o (put_level o.side o.price l' (record b { seq = b.seq + 1 })),
      level_at-put_level s p o.side o.price l' (record b { seq = b.seq + 1 }),
      queue-entered,
      length-append (queue_at o.side o.price b) (pl_order o (b.seq + 1) ∷ []),
    )
