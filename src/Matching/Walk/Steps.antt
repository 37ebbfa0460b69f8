-- ===== src/Matching/Walk/Steps.antt =====
-- One round of the `'level` loop: what a fill and a self-trade cancel do to the book and to the
-- output buffers.
use hft_clob_core.Prelude.{
  ◌-◌, ◌≤◌, ◌<◌, ◌≡◌, refl, ◌∙◌, subst, inl, inr, Bool, true, false, List, [], ◌∷◌, ◌++◌, some,
  Option-cases, is_some, min, ◌==◌, arith,
}
use hft_clob_core.Domain.Side
use hft_clob_core.Domain.Side.{Side, bid, ask}
use hft_clob_core.Domain.Price.{Price}
use hft_clob_core.Domain.OrderId.{OrderId}
use hft_clob_core.Matching.Types.{OrderMeta, AggressiveOrder, IdGenerator}
use hft_clob_core.Matching.Queue
use hft_clob_core.Matching.Queue.{IsQueue, PlOrder}
use hft_clob_core.Matching.Level.{PriceLevel, IsPriceLevel}
use hft_clob_core.Matching.Book.{level_at}
use hft_clob_core.Matching.View.{same_place, same_place_eq, same_place_refl, queue_at}
use hft_clob_core.Matching.Consistency.{IsConsistent, IsPruned, IsPrunedBut}
use hft_clob_core.Matching.Consistency.Removing.{
  take_off, queue_at-take_off, take_off-index, take_off_at-IsConsistent,
}
use hft_clob_core.Matching.Consistency.Pruning.{take_off-IsPrunedBut}
use hft_clob_core.Matching.Consistency.Reducing.{reduced}
use hft_clob_core.Matching.Sweep.{Swept}
use hft_clob_core.Matching.Walk.{Walk, consume_maker, fill_maker, walk_level}
use hft_clob_core.Matching.Walk.Stamps.{stamp, stp_records, issued, ids_after}

module _ {L G : Type 0} ⦃pl : PriceLevel L⦄ ⦃law : IsPriceLevel pl⦄ ⦃gen : IdGenerator G⦄ where
  module _ (taker : AggressiveOrder) (own : OrderId → Bool) (p : Price) where
    -- The state of the loop while it runs.
    pub record IsRunning (w : Walk L G) : Type 0 where
      pub consistent : IsConsistent w.session.book
      pub pruned_but : IsPrunedBut (Side.opposite taker.side) p w.session.book
      pub running : w.halted ≡ false
      pub not_stopped : w.taker_stp_cancelled ≡ false
      pub owns :
          (i : OrderId) (m : OrderMeta)
          → w.session.book.index i ≡ some m
          → (m.account_id == taker.account_id) ≡ own i

    -- `w'` is `w` after the sweep `d` of the level.
    pub record IsSwept (w w' : Walk L G) (d : Swept) : Type 0 where
      pub fills : w'.session.out_fills ≡ w.session.out_fills ++ issued taker w.session.ids d.trades
      pub ids : w'.session.ids ≡ ids_after w.session.ids d.trades
      pub stp : w'.session.out_stp ≡ w.session.out_stp ++ stp_records taker p d.stopped
      pub remaining : w'.remaining ≡ d.rest
      pub stopped : w'.taker_stp_cancelled ≡ is_some d.stopped
      pub halted : w'.halted ≡ is_some d.stopped
      pub queue : queue_at (Side.opposite taker.side) p w'.session.book ≡ d.left
      pub elsewhere :
          (s' : Side) (p' : Price)
          → same_place (Side.opposite taker.side) p s' p' ≡ false
          → queue_at s' p' w'.session.book ≡ queue_at s' p' w.session.book
      pub consistent : IsConsistent w'.session.book
      pub pruned_but : IsPrunedBut (Side.opposite taker.side) p w'.session.book
      pub pruned : is_some d.stopped ≡ true → IsPruned w'.session.book
      pub kept :
          (i : OrderId) (m : OrderMeta)
          → w'.session.book.index i ≡ some m
          → w.session.book.index i ≡ some m

    -- One fill of the whole maker.
    abbrev pub full_step : PlOrder → Walk L G → Walk L G
    full_step o w = record w {
      session = record (w.session) {
        book = take_off (Side.opposite taker.side) p o.id w.session.book;
        ids = (gen.next_trade_id w.session.ids).1;
        out_fills =
            w.session.out_fills
            ++ stamp taker (gen.next_trade_id w.session.ids).0
                (record { maker = o.id; price = p; qty = o.quantity; full = true })
              ∷ [];
      };
      remaining = w.remaining - o.quantity;
    }

    pub fill_maker_full :
        (o : PlOrder) (w : Walk L G)
        → o.quantity ≤ w.remaining
        → fill_maker taker p o w ≡ full_step o w
    unfolding fill_maker consume_maker
    fill_maker_full o w h =
        let all : min w.remaining o.quantity ≡ o.quantity = omega arith in
        let none_left : (o.quantity - o.quantity == 0) ≡ true = ground arith in rw (all, none_left)

    -- One fill of a part of the maker, which uses up the taker.
    abbrev pub part_step : PlOrder → L → Walk L G → Walk L G
    part_step o l w = record w {
      session = record (w.session) {
        book =
            reduced (Side.opposite taker.side) p l o.id (o.quantity - w.remaining) w.session.book;
        ids = (gen.next_trade_id w.session.ids).1;
        out_fills =
            w.session.out_fills
            ++ stamp taker (gen.next_trade_id w.session.ids).0
                (record { maker = o.id; price = p; qty = w.remaining; full = false })
              ∷ [];
      };
      remaining = 0;
    }

    pub fill_maker_part :
        (o : PlOrder) (l : L) (w : Walk L G)
        → w.remaining < o.quantity
        → level_at (Side.opposite taker.side) p w.session.book ≡ some l
        → fill_maker taker p o w ≡ part_step o l w
    unfolding fill_maker consume_maker
    fill_maker_part o l w h e =
        let all : min w.remaining o.quantity ≡ w.remaining = omega arith in
        let some_left : (o.quantity - w.remaining == 0) ≡ false = ground arith in
        let no_rest : w.remaining - w.remaining ≡ 0 = omega arith in
        rw (all, some_left, e, all, no_rest)

    pub walk_level_done :
        (os : List PlOrder) (w : Walk L G) → w.remaining ≡ 0 → walk_level taker p os w ≡ w
    unfolding walk_level
    walk_level_done [] w h = refl
    walk_level_done (o ∷ os) w h = ground arith

    -- The sidecar places the head of the queue here.
    pub head_meta :
        (o : PlOrder) (os : List PlOrder) (w : Walk L G)
        → IsConsistent w.session.book
        → queue_at (Side.opposite taker.side) p w.session.book ≡ o ∷ os
        → (m : OrderMeta) × (w.session.book.index o.id ≡ some m)
          × (m.side ≡ Side.opposite taker.side)
          × (m.price ≡ p)
    unfolding Queue.has
    head_meta o os w c e = elim (Option-cases (w.session.book.index o.id)) [
      | inl h ↦ absurd (ground (arith, c.located (Side.opposite taker.side) p o.id))
      | inr (m, h) ↦
          let here : same_place m.side m.price (Side.opposite taker.side) p ≡ true =
            ground (arith, c.located (Side.opposite taker.side) p o.id) in
          let (s, q) = same_place_eq _ _ _ _ here in (m, h, s, q)
    ]

    -- The queue of the head's level is what the level holds.
    pub head_level :
        (o : PlOrder) (os : List PlOrder) (w : Walk L G)
        → queue_at (Side.opposite taker.side) p w.session.book ≡ o ∷ os
        → (l : L) × (level_at (Side.opposite taker.side) p w.session.book ≡ some l)
          × (law.queue l ≡ o ∷ os)
    unfolding queue_at
    head_level o os w e =
        elim (Option-cases (level_at (Side.opposite taker.side) p w.session.book)) [
          | inl h ↦ absurd (ground arith)
          | inr (l, h) ↦ (l, h, ground arith)
        ]

    pub full_step-IsRunning :
        (o : PlOrder) (os : List PlOrder) (w : Walk L G)
        → IsRunning w
        → queue_at (Side.opposite taker.side) p w.session.book ≡ o ∷ os
        → IsRunning (full_step o w)
          × (queue_at (Side.opposite taker.side) p (full_step o w).session.book ≡ os)
    full_step-IsRunning o os w v e =
        let (m, known, es, ep) = head_meta o os w v.consistent e in
        (
          record {
            consistent = take_off_at-IsConsistent _ p o.id m _ known es ep v.consistent;
            pruned_but = take_off-IsPrunedBut _ p o.id _ v.pruned_but;
            running = v.running;
            not_stopped = v.not_stopped;
            owns = λ i n h. ground (
              arith,
              take_off-index (Side.opposite taker.side) p o.id w.session.book i,
              v.owns i n,
            );
          },
          queue_at-take_off _ p o.id w.session.book _ p
              ∙ rw (same_place_refl (Side.opposite taker.side) p, e)
                  (Queue.remove_head w.session.book.seq o os
                    (subst (IsQueue w.session.book.seq) e (v.consistent.queues _ p))),
        )
