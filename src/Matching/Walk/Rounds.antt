-- ===== src/Matching/Walk/Rounds.antt =====
-- The `'walk` loop does to one side of the book what `sweep` does to its ladder.
use hft_clob_core.Prelude.{
  ◌≡◌, refl, ◌∙◌, sym, subst, inl, inr, Bool, true, false, List, [], ◌∷◌, ◌++◌, append-nil, Option,
  none, some, Bool-cases, is_some, ◌==◌, if◌then◌else◌, arith,
}
use hft_clob_core.Domain.Side
use hft_clob_core.Domain.Side.{Side, bid, ask}
use hft_clob_core.Domain.Price.{Price}
use hft_clob_core.Domain.OrderId.{OrderId}
use hft_clob_core.Matching.Types.{OrderMeta, AggressiveOrder, StpCancellation, IdGenerator}
use hft_clob_core.Matching.Queue.{PlOrder}
use hft_clob_core.Matching.Level.{PriceLevel, IsPriceLevel}
use hft_clob_core.Matching.Book.{Book, prune_level}
use hft_clob_core.Matching.View.{same_place, queue_at, queue_at-prune_level}
use hft_clob_core.Matching.Consistency.{IsConsistent, IsPruned}
use hft_clob_core.Matching.Consistency.Pruning.{
  prune_level-IsConsistent, prune_level-IsPruned, prune_level-index,
}
use hft_clob_core.Matching.Ladder.{AllWorse, IsLadder, lookup_queue, Represents}
use hft_clob_core.Matching.Sweep.{Swept, SweptLadder, Ladder, unswept, keep_level}
use hft_clob_core.Matching.Walk.{Walk, finish_level}
use hft_clob_core.Matching.Walk.Stamps.{stp_record, stp_records, issued, ids_after}
use hft_clob_core.Matching.Walk.Steps.{IsSwept}

abbrev pub stop_records : AggressiveOrder → Option (Price × PlOrder) → List StpCancellation
stop_records taker none = []
stop_records taker (some (p, o)) = stp_record taker p o ∷ []

keep_level-IsLadder :
    (s : Side) (p : Price) (q : List PlOrder) (lv : Ladder)
    → AllWorse s p lv
    → IsLadder s lv
    → IsLadder s (keep_level p q lv)
keep_level-IsLadder s p [] lv a v = v
keep_level-IsLadder s p (o ∷ os) lv a v = (omega arith, a, v)

-- A price that no level has is looked up to nothing.
lookup_queue_worse : (s : Side) (p : Price) (lv : Ladder) → AllWorse s p lv → lookup_queue p lv ≡ []
unfolding lookup_queue
lookup_queue_worse s p [] a = refl
lookup_queue_worse bid p ((k, q) ∷ lv) a = ground (arith, lookup_queue_worse bid p lv a.1)
lookup_queue_worse ask p ((k, q) ∷ lv) a = ground (arith, lookup_queue_worse ask p lv a.1)

lookup_queue-keep_level :
    (s : Side) (k p : Price) (q : List PlOrder) (lv : Ladder)
    → AllWorse s p lv
    → lookup_queue k (keep_level p q lv) ≡ (if p == k then q else lookup_queue k lv)
unfolding lookup_queue
lookup_queue-keep_level s k p [] lv a = ground (arith, lookup_queue_worse s p lv a)
lookup_queue-keep_level s k p (o ∷ os) lv a = refl

same_place_side : (s : Side) (p p' : Price) → same_place s p s p' ≡ (p == p')
same_place_side bid p p' = refl
same_place_side ask p p' = refl

not_same_side : (side : Side) (p p' : Price) → same_place (Side.opposite side) p side p' ≡ false
unfolding Side.opposite
not_same_side bid p p' = refl
not_same_side ask p p' = refl

module _ {L : Type 0} ⦃pl : PriceLevel L⦄ ⦃law : IsPriceLevel pl⦄ where
  -- A level whose queue has changed, seen on the ladder.
  keep_level-Represents :
      (s : Side) (p : Price) (q q' : List PlOrder) (lv : Ladder) (b b' : Book L)
      → Represents s b ((p, q) ∷ lv)
      → queue_at s p b' ≡ q'
      → ((s' : Side) (p' : Price)
          → same_place s p s' p' ≡ false
          → queue_at s' p' b' ≡ queue_at s' p' b)
      → Represents s b' (keep_level p q' lv)
  unfolding lookup_queue
  keep_level-Represents s p q q' lv b b' r e elsewhere = record {
    is_ladder = keep_level-IsLadder s p q' lv r.is_ladder.1 r.is_ladder.2;
    same = λ k. ground (
      arith,
      lookup_queue-keep_level s k p q' lv r.is_ladder.1,
      elsewhere s k,
      same_place_side s p k,
      r.same k,
    );
  }

module _ {L G : Type 0} ⦃pl : PriceLevel L⦄ ⦃law : IsPriceLevel pl⦄ ⦃gen : IdGenerator G⦄ where
  module _ (taker : AggressiveOrder) (own : OrderId → Bool) where
    -- The state of the walk between two rounds.
    pub record IsReady (w : Walk L G) : Type 0 where
      pub consistent : IsConsistent w.session.book
      pub pruned : IsPruned w.session.book
      pub running : w.halted ≡ false
      pub not_stopped : w.taker_stp_cancelled ≡ false
      pub owns :
          (i : OrderId) (m : OrderMeta)
          → w.session.book.index i ≡ some m
          → (m.account_id == taker.account_id) ≡ own i

    -- `w'` is `w` after the sweep `d` of the other side, which the taker's own side is not part of.
    pub record IsMatched (w w' : Walk L G) (d : SweptLadder) : Type 0 where
      pub fills : w'.session.out_fills ≡ w.session.out_fills ++ issued taker w.session.ids d.trades
      pub ids : w'.session.ids ≡ ids_after w.session.ids d.trades
      pub stp : w'.session.out_stp ≡ w.session.out_stp ++ stop_records taker d.stopped
      pub remaining : w'.remaining ≡ d.rest
      pub stopped : w'.taker_stp_cancelled ≡ is_some d.stopped
      pub represents : Represents (Side.opposite taker.side) w'.session.book d.left
      pub own_side :
          (p : Price) → queue_at taker.side p w'.session.book ≡ queue_at taker.side p w.session.book
      pub consistent : IsConsistent w'.session.book
      pub pruned : IsPruned w'.session.book
      pub kept :
          (i : OrderId) (m : OrderMeta)
          → w'.session.book.index i ≡ some m
          → w.session.book.index i ≡ some m

    pub IsMatched-unswept :
        (lv : Ladder) (w : Walk L G) (h : Bool)
        → IsReady w
        → Represents (Side.opposite taker.side) w.session.book lv
        → IsMatched w (record w { halted = h }) (unswept lv w.remaining)
    unfolding issued ids_after
    IsMatched-unswept lv w h v r = record {
      fills = sym (append-nil _);
      ids = refl;
      stp = sym (append-nil _);
      remaining = refl;
      stopped = v.not_stopped;
      represents = r;
      own_side = λ p. refl;
      consistent = v.consistent;
      pruned = v.pruned;
      kept = λ i m x. x;
    }

    -- After the loop over a level that nothing stopped, the level is pruned.
    pub record IsRound (w w' : Walk L G) (p : Price) (d : Swept) (lv : Ladder) : Type 0 where
      pub fills : w'.session.out_fills ≡ w.session.out_fills ++ issued taker w.session.ids d.trades
      pub ids : w'.session.ids ≡ ids_after w.session.ids d.trades
      pub stp : w'.session.out_stp ≡ w.session.out_stp ++ stp_records taker p d.stopped
      pub remaining : w'.remaining ≡ d.rest
      pub stopped : w'.taker_stp_cancelled ≡ is_some d.stopped
      pub halted : w'.halted ≡ is_some d.stopped
      pub represents :
          Represents (Side.opposite taker.side) w'.session.book (keep_level p d.left lv)
      pub own_side :
          (p' : Price)
          → queue_at taker.side p' w'.session.book ≡ queue_at taker.side p' w.session.book
      pub consistent : IsConsistent w'.session.book
      pub pruned : IsPruned w'.session.book
      pub kept :
          (i : OrderId) (m : OrderMeta)
          → w'.session.book.index i ≡ some m
          → w.session.book.index i ≡ some m

    finish_level_halted :
        (s : Side) (p : Price) (w : Walk L G) → w.halted ≡ true → finish_level s p w ≡ w
    unfolding finish_level
    finish_level_halted s p w h = rw h refl

    finish_level_runs :
        (s : Side) (p : Price) (w : Walk L G)
        → w.halted ≡ false
        → finish_level s p w
          ≡ record w { session = record (w.session) { book = prune_level s p w.session.book } }
    unfolding finish_level
    finish_level_runs s p w h = rw h refl

    pub finish_level-IsRound :
        (p : Price) (q : List PlOrder) (lv : Ladder) (w w' : Walk L G) (d : Swept)
        → Represents (Side.opposite taker.side) w.session.book ((p, q) ∷ lv)
        → IsSwept taker own p w w' d
        → IsRound w (finish_level (Side.opposite taker.side) p w') p d lv
    finish_level-IsRound p q lv w w' d r v = elim (Bool-cases w'.halted) [
      | inl h ↦
          subst (λ x. IsRound w x p d lv) (sym (finish_level_halted _ p w' h))
            (record {
              fills = v.fills;
              ids = v.ids;
              stp = v.stp;
              remaining = v.remaining;
              stopped = v.stopped;
              halted = v.halted;
              represents = keep_level-Represents _ p q d.left lv _ _ r v.queue v.elsewhere;
              own_side = λ p'. v.elsewhere taker.side p' (not_same_side taker.side p p');
              consistent = v.consistent;
              pruned = v.pruned (sym v.halted ∙ h);
              kept = v.kept;
            })
      | inr h ↦
          subst (λ x. IsRound w x p d lv) (sym (finish_level_runs _ p w' h))
            (record {
              fills = v.fills;
              ids = v.ids;
              stp = v.stp;
              remaining = v.remaining;
              stopped = v.stopped;
              halted = v.halted;
              represents =
                  keep_level-Represents _ p q d.left lv _ _ r
                    (queue_at-prune_level _ p _ p w'.session.book ∙ v.queue)
                    (λ s' p' e.
                      queue_at-prune_level s' p' _ p w'.session.book ∙ v.elsewhere s' p' e);
              own_side = λ p'.
                  queue_at-prune_level taker.side p' _ p w'.session.book
                  ∙ v.elsewhere taker.side p' (not_same_side taker.side p p');
              consistent = prune_level-IsConsistent _ p _ v.consistent;
              pruned = prune_level-IsPruned _ p _ v.pruned_but;
              kept = λ i m e.
                  v.kept i m
                    (rw (prune_level-index (Side.opposite taker.side) p w'.session.book) at e);
            })
    ]
