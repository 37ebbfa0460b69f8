-- ===== src/Engine/Registry.antt =====
-- The registry of crates/engine/src/engine.rs: every order on the book is in it, with its owner.
pub mod Entering
pub mod Cancelling
pub mod Replacing
use hft_clob_core.Prelude.{
  ℕ, ◌-◌, ◌≡◌, refl, ◌∙◌, ap, inl, inr, Bool, true, false, ◌||◌, List, [], ◌∷◌, Option, none, some,
  Bool-cases, Option-cases, if◌then◌else◌, ◌==◌, arith,
}
use hft_clob_core.Collections.HashMap
use hft_clob_core.Domain.Side.{Side}
use hft_clob_core.Domain.Qty.{Qty}
use hft_clob_core.Domain.Price.{Price}
use hft_clob_core.Domain.OrderId.{OrderId}
use hft_clob_core.Domain.AccountId.{AccountId}
use hft_clob_core.Matching.Types.{OrderMeta, Fill, StpCancellation, IdGenerator}
use hft_clob_core.Matching.Level.{PriceLevel, IsPriceLevel}
use hft_clob_core.Matching.Consistency.{IsBook}
use hft_clob_core.Matching.Walk.Tracking.{is_filled, is_stopped, is_gone}
use hft_clob_core.Wire.Outbound.{RecvTs}
use hft_clob_core.Engine.{Engine, Clock, OrderRegistryEntry, drop_entry, emit}
use hft_clob_core.Engine.Reports.{
  emit_exec_report_cancelled, emit_exec_report_fill, emit_trade_print_for_fill,
}
use hft_clob_core.Engine.Fills.{
  reduced_entry, reduce_entry, set_last_trade, settle_maker, report_fill, emit_fills, emit_stp,
  emit_fills_for_taker, emit_stp_cancels,
}

abbrev pub owner_of : Option OrderRegistryEntry → Option (AccountId × Side)
owner_of none = none
owner_of (some entry) = some (entry.account_id, entry.side)

module _ {L G C : Type 0} where
  -- An order on the book is registered, for its account and side.
  abbrev pub Covers : Engine L G C → Type 0
  Covers e =
      (i : OrderId) (m : OrderMeta)
      → e.book.index i ≡ some m
      → owner_of (e.registry i) ≡ some (m.account_id, m.side)

  -- From `e` to `e'` the entries of some orders are dropped, and no other owner changes.
  pub record IsSettled (gone : OrderId → Bool) (e e' : Engine L G C) : Type 0 where
    pub book : e'.book ≡ e.book
    pub stp_buf : e'.stp_buf ≡ e.stp_buf
    pub owner :
        (j : OrderId)
        → owner_of (e'.registry j) ≡ (if gone j then none else owner_of (e.registry j))

  pub drop_entry-IsSettled :
      (i : OrderId) (e : Engine L G C) → IsSettled (λ j. j == i) e (drop_entry i e)
  unfolding drop_entry HashMap.remove
  drop_entry-IsSettled i e = elim (Option-cases (e.registry i)) [
    | inl h ↦
        rw (h, drop_entry) (record { book = refl; stp_buf = refl; owner = λ j. ground (arith, h) })
    | inr (x, h) ↦
        rw (h, drop_entry) (record { book = refl; stp_buf = refl; owner = λ j. ground arith })
  ]

  reduce_entry-IsSettled :
      (i : OrderId) (p : Price) (q : Qty) (e : Engine L G C)
      → IsSettled (λ j. false) e (reduce_entry i p q (e.registry i) e)
  unfolding reduce_entry reduced_entry HashMap.insert
  reduce_entry-IsSettled i p q e = elim (Option-cases (e.registry i)) [
    | inl h ↦ rw (h, reduce_entry) (record { book = refl; stp_buf = refl; owner = λ j. refl })
    | inr (x, h) ↦
        rw (h, reduce_entry)
          (record { book = refl; stp_buf = refl; owner = λ j. ground (arith, h) })
  ]

  settle_maker-IsSettled :
      (f : Fill) (e : Engine L G C) → IsSettled (is_filled (f ∷ [])) e (settle_maker f e)
  unfolding settle_maker
  settle_maker-IsSettled f e = elim (Bool-cases f.maker_fully_filled) [
    | inl h ↦
        let d = drop_entry-IsSettled f.maker_order_id e in
        rw (h, settle_maker)
          (record { book = d.book; stp_buf = d.stp_buf; owner = λ j. ground (arith, h, d.owner j) })
    | inr h ↦
        let d = reduce_entry-IsSettled f.maker_order_id f.price f.qty e in
        rw (h, settle_maker)
          (record { book = d.book; stp_buf = d.stp_buf; owner = λ j. ground (arith, h, d.owner j) })
  ]

  set_last_trade-IsSettled :
      (p : Price) (e : Engine L G C) → IsSettled (λ j. false) e (set_last_trade p e)
  unfolding set_last_trade
  set_last_trade-IsSettled p e = record { book = refl; stp_buf = refl; owner = λ j. refl }

module _ {L G C : Type 0} ⦃gen : IdGenerator G⦄ ⦃clk : Clock C⦄ where
  report_fill-IsSettled :
      (i : OrderId) (a : AccountId) (f : Fill) (n : ℕ) (t : RecvTs) (e : Engine L G C)
      → IsSettled (λ j. false) e (report_fill i a f n t e)
  unfolding report_fill emit_exec_report_fill emit_trade_print_for_fill emit
  report_fill-IsSettled i a f n t e = record { book = refl; stp_buf = refl; owner = λ j. refl }

  emit_fills-IsSettled :
      (i : OrderId) (a : AccountId) (t : RecvTs) (fs : List Fill) (n : ℕ) (e : Engine L G C)
      → IsSettled (is_filled fs) e (emit_fills i a t fs n e)
  unfolding emit_fills
  emit_fills-IsSettled i a t [] n e = record { book = refl; stp_buf = refl; owner = λ j. refl }
  emit_fills-IsSettled i a t (f ∷ fs) n e =
      let reported = report_fill i a f (n - f.qty) t e in
      let priced = set_last_trade f.price reported in
      let r = report_fill-IsSettled i a f (n - f.qty) t e in
      let p = set_last_trade-IsSettled f.price reported in
      let s = settle_maker-IsSettled f priced in
      let rest = emit_fills-IsSettled i a t fs (n - f.qty) (settle_maker f priced) in
      record {
        book = rest.book ∙ s.book ∙ p.book ∙ r.book;
        stp_buf = rest.stp_buf ∙ s.stp_buf ∙ p.stp_buf ∙ r.stp_buf;
        owner = λ j. ground (arith, rest.owner j, s.owner j, p.owner j, r.owner j);
      }

  emit_stp-IsSettled :
      (t : RecvTs) (cs : List StpCancellation) (e : Engine L G C)
      → IsSettled (is_stopped cs) e (emit_stp t cs e)
  unfolding emit_stp emit_exec_report_cancelled emit
  emit_stp-IsSettled t [] e = record { book = refl; stp_buf = refl; owner = λ j. refl }
  emit_stp-IsSettled t (c ∷ cs) e =
      let s = drop_entry-IsSettled c.order_id _ in
      let rest = emit_stp-IsSettled t cs (drop_entry c.order_id _) in
      record {
        book = rest.book ∙ s.book;
        stp_buf = rest.stp_buf ∙ s.stp_buf;
        owner = λ j. ground (arith, rest.owner j, s.owner j);
      }

  -- The reports of a match drop the entries of exactly the orders that the buffers tell of.
  pub emit_match-IsSettled :
      (i : OrderId) (a : AccountId) (q : Qty) (t : RecvTs) (e : Engine L G C)
      → IsSettled
          (is_gone e.fills_buf e.stp_buf)
          e
          (emit_stp_cancels t (emit_fills_for_taker i a q t e))
  unfolding emit_stp_cancels emit_fills_for_taker
  emit_match-IsSettled i a q t e =
      let filled = emit_fills-IsSettled i a t e.fills_buf q e in
      let after = emit_fills i a t e.fills_buf q e in
      let stopped = emit_stp-IsSettled t after.stp_buf after in
      record {
        book = stopped.book ∙ filled.book;
        stp_buf = stopped.stp_buf ∙ filled.stp_buf;
        owner = λ j.
            let x : is_stopped after.stp_buf j ≡ is_stopped e.stp_buf j =
              ap (λ cs. is_stopped cs j) filled.stp_buf in
            ground (arith, stopped.owner j, filled.owner j, x);
      }
