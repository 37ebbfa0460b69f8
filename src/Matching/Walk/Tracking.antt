-- ===== src/Matching/Walk/Tracking.antt =====
-- What the output buffers of `Book::match_aggressive` tell of the sidecar: the orders that left it.
use hft_clob_core.Prelude.{
  ℕ, zero, suc, ◌-◌, ◌≤◌, ◌≡◌, refl, ◌∙◌, sym, subst, inl, inr, Bool, false, ◌&&◌, ◌||◌, List, [],
  ◌∷◌, ◌++◌, append_assoc, append-nil, some, none, Bool-cases, Option-cases, min, ◌==◌,
  if◌then◌else◌, arith,
}
use hft_clob_core.Domain.Side
use hft_clob_core.Domain.Side.{Side, bid, ask}
use hft_clob_core.Domain.Qty
use hft_clob_core.Domain.Qty.{Qty}
use hft_clob_core.Domain.Price.{Price}
use hft_clob_core.Domain.OrderId.{OrderId}
use hft_clob_core.Matching.Types.{OrderMeta, AggressiveOrder, Fill, StpCancellation, IdGenerator}
use hft_clob_core.Matching.Queue.{PlOrder}
use hft_clob_core.Matching.Level.{PriceLevel, IsPriceLevel}
use hft_clob_core.Matching.Book.{Book, put_level, level_at, best_of, would_cross}
use hft_clob_core.Matching.Consistency.Removing.{take_off-index}
use hft_clob_core.Matching.Consistency.Pruning.{prune_level-index}
use hft_clob_core.Matching.Resting.{drop_from_indices, cancel_in_level}
use hft_clob_core.Matching.Walk.Equations.{walk_halted, walk_used, walk_step}
use hft_clob_core.Matching.Walk.{
  Session, Walk, crosses_limit, consume_maker, stp_cancel, fill_maker, walk_level, finish_level,
  enter_level, walk_round, walk, start_walk, walk_all, match_result, match_aggressive, is_post_only,
}

-- Is the order a maker that was filled whole, or cancelled for a self-trade?
abbrev pub is_filled : List Fill → OrderId → Bool
is_filled [] i = false
is_filled (f ∷ fs) i = f.maker_fully_filled && i == f.maker_order_id || is_filled fs i

abbrev pub is_stopped : List StpCancellation → OrderId → Bool
is_stopped [] i = false
is_stopped (c ∷ cs) i = i == c.order_id || is_stopped cs i

abbrev pub is_gone : List Fill → List StpCancellation → OrderId → Bool
is_gone fs cs i = is_filled fs i || is_stopped cs i

is_filled-append :
    (fs gs : List Fill) (i : OrderId) → is_filled (fs ++ gs) i ≡ (is_filled fs i || is_filled gs i)
is_filled-append [] gs i = refl
is_filled-append (f ∷ fs) gs i = ground (arith, is_filled-append fs gs i)

is_stopped-append :
    (cs ds : List StpCancellation) (i : OrderId)
    → is_stopped (cs ++ ds) i ≡ (is_stopped cs i || is_stopped ds i)
is_stopped-append [] ds i = refl
is_stopped-append (c ∷ cs) ds i = ground (arith, is_stopped-append cs ds i)

module _ {L G : Type 0} where
  -- From `s` to `s'` the buffers have grown by the fills and cancellations of the orders that have
  -- left the sidecar, and nothing else of the sidecar or of the measure of the ids has changed.
  pub record Tracks (measure : G → ℕ) (s s' : Session L G) : Type 0 where
    pub fills : List Fill
    pub stps : List StpCancellation
    pub out_fills : s'.out_fills ≡ s.out_fills ++ fills
    pub out_stp : s'.out_stp ≡ s.out_stp ++ stps
    pub index :
        (i : OrderId) → s'.book.index i ≡ (if is_gone fills stps i then none else s.book.index i)
    pub ids : measure s'.ids ≡ measure s.ids

  module _ (measure : G → ℕ) where
    pub Tracks-refl : (s : Session L G) → Tracks measure s s
    Tracks-refl s = record {
      fills = [];
      stps = [];
      out_fills = sym (append-nil s.out_fills);
      out_stp = sym (append-nil s.out_stp);
      index = λ i. refl;
      ids = refl;
    }

    pub Tracks-trans :
        {s t u : Session L G} → Tracks measure s t → Tracks measure t u → Tracks measure s u
    Tracks-trans {s} {t} {u} h k = record {
      fills = h.fills ++ k.fills;
      stps = h.stps ++ k.stps;
      out_fills = rw (k.out_fills, h.out_fills) (append_assoc s.out_fills h.fills k.fills);
      out_stp = rw (k.out_stp, h.out_stp) (append_assoc s.out_stp h.stps k.stps);
      index = λ i. ground (
        arith,
        h.index i,
        k.index i,
        is_filled-append h.fills k.fills i,
        is_stopped-append h.stps k.stps i,
      );
      ids = k.ids ∙ h.ids;
    }

module _ {L : Type 0} ⦃pl : PriceLevel L⦄ ⦃law : IsPriceLevel pl⦄ where
  pub put_level-index :
      (s : Side) (p : Price) (l : L) (b : Book L) → (put_level s p l b).index ≡ b.index
  put_level-index bid p l b = refl
  put_level-index ask p l b = refl

  -- A maker leaves the sidecar exactly if it is filled whole.
  consume_maker-index :
      (s : Side) (p : Price) (o : PlOrder) (n : ℕ) (b : Book L) (i : OrderId)
      → (consume_maker s p o n b).index i
        ≡ (if o.quantity - n == 0 && i == o.id then none else b.index i)
  unfolding consume_maker
  consume_maker-index s p o n b i = elim (Bool-cases (o.quantity - n == 0)) [
    | inl h ↦ rw h (take_off-index s p o.id b i)
    | inr h ↦ elim (Option-cases (level_at s p b)) [
      | inl e ↦ rw (h, consume_maker) (rw e refl)
      | inr (l, e) ↦ rw (h, consume_maker) (rw e (ground (arith, put_level-index s p _ b)))
    ]
  ]

module _ {L G : Type 0} ⦃pl : PriceLevel L⦄ ⦃law : IsPriceLevel pl⦄ ⦃gen : IdGenerator G⦄
    (measure : G → ℕ) (same : (g : G) → measure (gen.next_trade_id g).1 ≡ measure g)
    (taker : AggressiveOrder) where
  abbrev Follows : Walk L G → Walk L G → Type 0
  Follows w w' = Tracks measure w.session w'.session

  fill_maker-Tracks : (p : Price) (o : PlOrder) (w : Walk L G) → Follows w (fill_maker taker p o w)
  unfolding fill_maker
  fill_maker-Tracks p o w = record {
    fills = _;
    stps = [];
    out_fills = refl;
    out_stp = sym (append-nil w.session.out_stp);
    index = λ i. ground (
      arith,
      consume_maker-index (Side.opposite taker.side) p o (min w.remaining o.quantity) w.session.book
          i,
    );
    ids = same w.session.ids;
  }

  stp_cancel-Tracks :
      (p : Price) (o : PlOrder) (m : OrderMeta) (w : Walk L G)
      → Follows w (stp_cancel taker p o m w)
  unfolding stp_cancel
  stp_cancel-Tracks p o m w = record {
    fills = [];
    stps = _;
    out_fills = sym (append-nil w.session.out_fills);
    out_stp = refl;
    index = λ i. ground (
      arith,
      prune_level-index (Side.opposite taker.side) p (
          drop_from_indices o.id
            (cancel_in_level (Side.opposite taker.side) p o.id w.session.book)),
      take_off-index (Side.opposite taker.side) p o.id w.session.book i,
    );
    ids = refl;
  }

  walk_level-Tracks :
      (p : Price) (os : List PlOrder) (w : Walk L G) → Follows w (walk_level taker p os w)
  unfolding walk_level
  walk_level-Tracks p [] w = Tracks-refl measure w.session
  walk_level-Tracks p (o ∷ os) w = elim (Bool-cases (w.remaining == 0)) [
    | inl h ↦ rw h (Tracks-refl measure w.session)
    | inr h ↦ elim (Option-cases (w.session.book.index o.id)) [
      | inl e ↦ rw (h, walk_level) (rw e (Tracks-refl measure w.session))
      | inr (m, e) ↦ elim (Bool-cases (m.account_id == taker.account_id)) [
        | inl a ↦ rw (h, walk_level) (rw e (rw a (stp_cancel-Tracks p o m w)))
        | inr a ↦ elim (Bool-cases (o.quantity == 0)) [
          | inl z ↦ rw (h, walk_level) (rw e (rw (a, z) (Tracks-refl measure w.session)))
          | inr z ↦
              rw (h, walk_level)
                (rw e (
                  rw (a, z)
                    (Tracks-trans measure (fill_maker-Tracks p o w)
                      (walk_level-Tracks p os (fill_maker taker p o w)))))
        ]
      ]
    ]
  ]

  finish_level-Tracks : (s : Side) (p : Price) (w : Walk L G) → Follows w (finish_level s p w)
  unfolding finish_level
  finish_level-Tracks s p w = elim (Bool-cases w.halted) [
    | inl h ↦ rw h (Tracks-refl measure w.session)
    | inr h ↦ rw h (record {
      fills = [];
      stps = [];
      out_fills = sym (append-nil w.session.out_fills);
      out_stp = sym (append-nil w.session.out_stp);
      index = λ i. ground (arith, prune_level-index s p w.session.book);
      ids = refl;
    })
  ]

  walk_round-Tracks : (w : Walk L G) → Follows w (walk_round taker w)
  unfolding walk_round enter_level
  walk_round-Tracks w = elim (Option-cases (best_of (Side.opposite taker.side) w.session.book)) [
    | inl e ↦ rw (e, walk_round) (Tracks-refl measure w.session)
    | inr (p, e) ↦ elim (Bool-cases (crosses_limit taker.side taker.price p)) [
      | inr c ↦ rw (e, walk_round) (rw c (Tracks-refl measure w.session))
      | inl c ↦ elim (Option-cases (level_at (Side.opposite taker.side) p w.session.book)) [
        | inl x ↦ rw (e, walk_round) (rw c (rw (x, enter_level) (Tracks-refl measure w.session)))
        | inr (l, x) ↦ elim (Option-cases (pl.snapshot_orders l)) [
          | inl y ↦
              rw (e, walk_round) (rw c (rw (x, enter_level) (rw y (Tracks-refl measure w.session))))
          | inr (os, y) ↦
              rw (e, walk_round)
                (rw c (
                  rw (x, enter_level)
                    (rw y (
                      Tracks-trans measure (walk_level-Tracks p os w) (
                        finish_level-Tracks (Side.opposite taker.side) p
                          (walk_level taker p os w))))))
        ]
      ]
    ]
  ]

  walk-Tracks : (n : ℕ) (w : Walk L G) → Follows w (walk n taker w)
  unfolding walk
  walk-Tracks zero w = Tracks-refl measure w.session
  walk-Tracks (suc n) w = elim (Bool-cases w.halted) [
    | inl h ↦
        subst (Follows w) (sym (walk_halted taker (suc n) w h)) (Tracks-refl measure w.session)
    | inr h ↦ elim (Bool-cases (w.remaining == 0)) [
      | inl z ↦
          subst (Follows w) (sym (walk_used taker (suc n) w (ground arith)))
            (Tracks-refl measure w.session)
      | inr z ↦
          subst (Follows w) (sym (walk_step taker n w h z))
            (Tracks-trans measure (walk_round-Tracks w) (walk-Tracks n (walk_round taker w)))
    ]
  ]

  -- The call appends to the buffers the fills and the cancellations of exactly those orders that
  -- leave the sidecar, and changes no other entry of it.
  pub match_aggressive-Tracks : (s : Session L G) → Tracks measure s (match_aggressive taker s).0
  unfolding match_aggressive walk_all start_walk
  match_aggressive-Tracks s =
      elim (Bool-cases (is_post_only taker.tif && would_cross taker.side taker.price s.book)) [
        | inl h ↦ rw h (Tracks-refl measure s)
        | inr h ↦ rw h (walk-Tracks _ (start_walk taker s))
      ]

module _ {L G : Type 0} ⦃pl : PriceLevel L⦄ ⦃gen : IdGenerator G⦄ where
  -- What a call answers as the rest of an order of at least one lot is at least one lot.
  pub match_aggressive-remaining :
      (taker : AggressiveOrder) (s : Session L G)
      → 1 ≤ taker.qty
      → (q : Qty) → (match_aggressive taker s).1.taker_remaining ≡ some q
      → 1 ≤ q
  unfolding match_aggressive match_result Qty.new
  match_aggressive-remaining taker s lots q e =
      elim (Bool-cases (is_post_only taker.tif && would_cross taker.side taker.price s.book)) [
        | inl h ↦ ground (arith, rw h at e)
        | inr h ↦ ground (arith, rw h at e)
      ]
