-- ===== src/Matching/Sweep/Equations.antt =====
-- The sweep, one equation for each way a round can go.
use hft_clob_core.Prelude.{
  ℕ, ◌-◌, ◌≡◌, refl, ◌⊎◌, inl, inr, Bool, true, false, List, [], ◌∷◌, ◌++◌, none, some, ltb, ◌==◌,
  Bool-cases, arith,
}
use hft_clob_core.Domain.Price.{Price}
use hft_clob_core.Domain.OrderId.{OrderId}
use hft_clob_core.Matching.Queue.{PlOrder}
use hft_clob_core.Matching.Sweep.{
  Swept, SweptLadder, Ladder, sweep_queue, sweep, unswept, after_level, keep_level,
}

module _ (own : OrderId → Bool) (p : Price) where
  pub sweep_queue_own :
      (o : PlOrder) (os : List PlOrder) (r : ℕ)
      → (r == 0) ≡ false
      → own o.id ≡ true
      → sweep_queue own p (o ∷ os) r ≡ record { trades = []; rest = r; left = os; stopped = some o }
  unfolding sweep_queue
  sweep_queue_own o os r z mine = rw (z, mine)

  pub sweep_queue_part :
      (o : PlOrder) (os : List PlOrder) (r : ℕ)
      → (r == 0) ≡ false
      → own o.id ≡ false
      → ltb r o.quantity ≡ true
      → sweep_queue own p (o ∷ os) r ≡ record {
        trades = record { maker = o.id; price = p; qty = r; full = false } ∷ [];
        rest = 0;
        left = record o { quantity = o.quantity - r } ∷ os;
        stopped = none;
      }
  unfolding sweep_queue
  sweep_queue_part o os r z other h = rw (z, other, h)

  pub sweep_queue_full :
      (o : PlOrder) (os : List PlOrder) (r : ℕ)
      → (r == 0) ≡ false
      → own o.id ≡ false
      → ltb r o.quantity ≡ false
      → sweep_queue own p (o ∷ os) r ≡ record (sweep_queue own p os (r - o.quantity)) {
        trades =
            record { maker = o.id; price = p; qty = o.quantity; full = true }
            ∷ (sweep_queue own p os (r - o.quantity)).trades;
      }
  unfolding sweep_queue
  sweep_queue_full o os r z other h = rw (z, other, h)

  pub sweep_queue_done :
      (o : PlOrder) (os : List PlOrder) (r : ℕ)
      → (r == 0) ≡ true
      → sweep_queue own p (o ∷ os) r
        ≡ record { trades = []; rest = r; left = o ∷ os; stopped = none }
  unfolding sweep_queue
  sweep_queue_done o os r z = rw z

  pub sweep_queue_nil :
      (r : ℕ) → sweep_queue own p [] r ≡ record { trades = []; rest = r; left = []; stopped = none }
  unfolding sweep_queue
  sweep_queue_nil r = refl

-- A level that is swept whole leaves the taker lots, or nothing stopped the sweep before.
pub sweep_queue_rest :
    (own : OrderId → Bool) (p : Price) (q : List PlOrder) (r : ℕ)
    → (sweep_queue own p q r).stopped ≡ none
    → ((sweep_queue own p q r).rest ≡ 0) ⊎ ((sweep_queue own p q r).left ≡ [])
unfolding sweep_queue
sweep_queue_rest own p [] r h = inr refl
sweep_queue_rest own p (o ∷ os) r h = ground (arith, sweep_queue_rest own p os (r - o.quantity))

module _ (own : OrderId → Bool) (crosses : Price → Bool) where
  pub sweep_used : (lv : Ladder) (r : ℕ) → r ≡ 0 → sweep own crosses lv r ≡ unswept lv r
  unfolding sweep
  sweep_used [] r h = refl
  sweep_used ((p, q) ∷ lv) r h = ground arith

  pub sweep_nil : (r : ℕ) → sweep own crosses [] r ≡ unswept [] r
  unfolding sweep
  sweep_nil r = refl

  pub sweep_limit :
      (p : Price) (q : List PlOrder) (lv : Ladder) (r : ℕ)
      → crosses p ≡ false
      → sweep own crosses ((p, q) ∷ lv) r ≡ unswept ((p, q) ∷ lv) r
  unfolding sweep
  sweep_limit p q lv r h = elim (Bool-cases (r == 0)) [ inl e ↦ rw e refl | inr e ↦ rw (e, h) refl ]

  pub sweep_level :
      (p : Price) (q : List PlOrder) (lv : Ladder) (r : ℕ)
      → (r == 0) ≡ false
      → crosses p ≡ true
      → sweep own crosses ((p, q) ∷ lv) r
        ≡ after_level p
            (sweep_queue own p q r)
            (sweep own crosses lv (sweep_queue own p q r).rest)
            lv
  unfolding sweep
  sweep_level p q lv r z h = rw (z, h) refl

pub after_level-none :
    (p : Price) (d : Swept) (below : SweptLadder) (lv : Ladder)
    → d.stopped ≡ none
    → after_level p d below lv ≡ record {
      trades = d.trades ++ below.trades;
      rest = below.rest;
      left = keep_level p d.left below.left;
      stopped = below.stopped;
    }
after_level-none p d below lv h = rw h refl

pub after_level-some :
    (p : Price) (d : Swept) (o : PlOrder) (below : SweptLadder) (lv : Ladder)
    → d.stopped ≡ some o
    → after_level p d below lv ≡ record {
      trades = d.trades;
      rest = d.rest;
      left = keep_level p d.left lv;
      stopped = some (p, o);
    }
after_level-some p d o below lv h = rw h refl
