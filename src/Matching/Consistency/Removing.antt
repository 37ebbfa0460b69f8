-- ===== src/Matching/Consistency/Removing.antt =====
-- Taking one order off the book: out of its level, the sidecar and the account index.
use hft_clob_core.Prelude.{
  ℕ, ◌≡◌, ◌∙◌, inl, inr, false, List, Option, none, some, Option-cases, ◌==◌, if◌then◌else◌, arith,
}
use hft_clob_core.Collections.BTreeMap
use hft_clob_core.Collections.BTreeSet
use hft_clob_core.Collections.HashMap
use hft_clob_core.Domain.Side.{Side, bid, ask}
use hft_clob_core.Domain.Price.{Price}
use hft_clob_core.Domain.OrderId.{OrderId}
use hft_clob_core.Domain.AccountId.{AccountId}
use hft_clob_core.Matching.Types.{OrderMeta}
use hft_clob_core.Matching.Queue
use hft_clob_core.Matching.Queue.{IsQueue}
use hft_clob_core.Matching.Level.{PriceLevel, IsPriceLevel}
use hft_clob_core.Matching.Book.{Book, level_at}
use hft_clob_core.Matching.Resting.{
  remove_from_account, drop_located, drop_from_indices, cancel_in_level,
}
use hft_clob_core.Matching.View.{
  same_place, queue_at, queue_at-drop_from_indices, queue_at-cancel_in_level,
}
use hft_clob_core.Matching.Consistency.{in_set, IsAccountSet, IsConsistent}

in_set-remove_from_account :
    (a a' : AccountId) (i j : OrderId) (m : ℕ → Option (List ℕ))
    → in_set (remove_from_account a i m a') j
      ≡ (if a' == a then (if j == i then false else in_set (m a) j) else in_set (m a') j)
unfolding remove_from_account HashMap.insert HashMap.remove
in_set-remove_from_account a a' i j m = elim (Option-cases (m a)) [
  | inl e ↦ rw (e, remove_from_account) (ground arith)
  | inr (s, e) ↦
      rw (e, remove_from_account)
        (ground (
          arith,
          BTreeSet.contains-remove j i s,
          BTreeSet.contains-is_empty j (BTreeSet.remove i s),
        ))
]

remove_from_account-IsAccountSet :
    (a a' : AccountId) (i : OrderId) (m : ℕ → Option (List ℕ))
    → IsAccountSet (m a)
    → IsAccountSet (m a')
    → IsAccountSet (remove_from_account a i m a')
unfolding remove_from_account HashMap.insert HashMap.remove
remove_from_account-IsAccountSet a a' i m h h' = elim (Option-cases (m a)) [
  | inl e ↦ rw (e, remove_from_account) h'
  | inr (s, e) ↦
      let valid : IsAccountSet (some s) = rw e at h in
      rw (e, remove_from_account) (ground (arith, BTreeSet.remove-IsAscending i s valid.0))
]

module _ {L : Type 0} ⦃pl : PriceLevel L⦄ ⦃law : IsPriceLevel pl⦄ where
  -- One order is taken off: the common part of a cancel, a full fill and a self-trade cancel.
  abbrev pub take_off : Side → Price → OrderId → Book L → Book L
  take_off s p i b = drop_from_indices i (cancel_in_level s p i b)

  pub index-cancel_in_level :
      (s : Side) (p : Price) (i : OrderId) (b : Book L)
      → ((cancel_in_level s p i b).index ≡ b.index)
        × ((cancel_in_level s p i b).by_account ≡ b.by_account)
        × ((cancel_in_level s p i b).seq ≡ b.seq)
  unfolding cancel_in_level
  index-cancel_in_level bid p i b = ground arith
  index-cancel_in_level ask p i b = ground arith

  cancel_in_level-IsAscending :
      (s : Side) (p : Price) (i : OrderId) (b : Book L)
      → BTreeMap.IsAscending b.bids
      → BTreeMap.IsAscending b.asks
      → BTreeMap.IsAscending (cancel_in_level s p i b).bids
        × BTreeMap.IsAscending (cancel_in_level s p i b).asks
  unfolding cancel_in_level
  cancel_in_level-IsAscending bid p i b h k = elim (Option-cases (level_at bid p b)) [
    | inl e ↦ rw (e, cancel_in_level) (h, k)
    | inr (l, e) ↦ rw (e, cancel_in_level) (BTreeMap.insert-IsAscending p _ b.bids h, k)
  ]
  cancel_in_level-IsAscending ask p i b h k = elim (Option-cases (level_at ask p b)) [
    | inl e ↦ rw (e, cancel_in_level) (h, k)
    | inr (l, e) ↦ rw (e, cancel_in_level) (h, BTreeMap.insert-IsAscending p _ b.asks k)
  ]

  -- The side tables after an order has left its level.
  module _ (s : Side) (p : Price) (i : OrderId) (b : Book L) where
    pub take_off-index :
        (j : OrderId) → (take_off s p i b).index j ≡ (if j == i then none else b.index j)
    unfolding drop_from_indices HashMap.remove
    take_off-index j = ground (arith, index-cancel_in_level s p i b)

    take_off-by_account :
        (m : OrderMeta)
        → b.index i ≡ some m
        → (take_off s p i b).by_account ≡ remove_from_account m.account_id i b.by_account
    unfolding drop_from_indices drop_located
    take_off-by_account m e = ground (arith, index-cancel_in_level s p i b)

    take_off-seq : (take_off s p i b).seq ≡ b.seq
    unfolding drop_from_indices
    take_off-seq = (index-cancel_in_level s p i b).2

    take_off-IsAscending :
        BTreeMap.IsAscending b.bids
        → BTreeMap.IsAscending b.asks
        → BTreeMap.IsAscending (take_off s p i b).bids
          × BTreeMap.IsAscending (take_off s p i b).asks
    unfolding drop_from_indices
    take_off-IsAscending h k = cancel_in_level-IsAscending s p i b h k

    pub queue_at-take_off :
        (s' : Side) (p' : Price)
        → queue_at s' p' (take_off s p i b)
          ≡ (if same_place s p s' p' then Queue.remove i (queue_at s' p' b) else queue_at s' p' b)
    queue_at-take_off s' p' =
        queue_at-drop_from_indices s' p' i (cancel_in_level s p i b)
        ∙ queue_at-cancel_in_level s' p' s p i b

  -- Taking a resting order off keeps the invariant.
  pub take_off-IsConsistent :
      (i : OrderId) (m : OrderMeta) (b : Book L)
      → b.index i ≡ some m
      → IsConsistent b
      → IsConsistent (take_off m.side m.price i b)
  take_off-IsConsistent i m b e c =
      let ascend = take_off-IsAscending m.side m.price i b c.bids_ascend c.asks_ascend in
      record {
        bids_ascend = ascend.0;
        asks_ascend = ascend.1;
        queues = λ s p.
            rw (queue_at-take_off m.side m.price i b s p, take_off-seq m.side m.price i b)
              (ground (arith, Queue.remove-IsQueue b.seq i (queue_at s p b), c.queues s p));
        located = λ s p j. ground (
          arith,
          queue_at-take_off m.side m.price i b s p,
          Queue.has-remove j i (queue_at s p b),
          take_off-index m.side m.price i b j,
          c.located s p j,
        );
        owned = λ a j. ground (
          arith,
          take_off-by_account m.side m.price i b m e,
          in_set-remove_from_account m.account_id a i j b.by_account,
          take_off-index m.side m.price i b j,
          c.owned a j,
          c.owned m.account_id j,
        );
        account_sets = λ a. ground (
          arith,
          take_off-by_account m.side m.price i b m e,
          remove_from_account-IsAccountSet m.account_id a i b.by_account
              (c.account_sets m.account_id) (c.account_sets a),
        );
      }

  pub take_off_at-IsConsistent :
      (s : Side) (p : Price) (i : OrderId) (m : OrderMeta) (b : Book L)
      → b.index i ≡ some m
      → m.side ≡ s
      → m.price ≡ p
      → IsConsistent b
      → IsConsistent (take_off s p i b)
  take_off_at-IsConsistent s p i m b e es ep c = rw (← es, ← ep) (take_off-IsConsistent i m b e c)
