-- ===== src/Engine/Registry/Cancelling.antt =====
-- The cancels of crates/engine/src/engine.rs keep every order on the book registered.
use hft_clob_core.Prelude.{
  ◌≡◌, refl, ◌∙◌, ap, inl, inr, true, false, List, [], ◌∷◌, none, Option-cases, Result-cases,
  if◌then◌else◌, arith,
}
use hft_clob_core.Collections.BTreeSet
use hft_clob_core.Domain.OrderId.{OrderId}
use hft_clob_core.Domain.AccountId.{AccountId}
use hft_clob_core.Domain.RejectReason
use hft_clob_core.Matching.Types.{MassCancellation, IdGenerator}
use hft_clob_core.Matching.Level.{PriceLevel, IsPriceLevel}
use hft_clob_core.Matching.Book.{Book}
use hft_clob_core.Matching.Resting.{cancel}
use hft_clob_core.Matching.Consistency.{IsBook, is_owned}
use hft_clob_core.Matching.Consistency.Leaving.{index-cancel}
use hft_clob_core.Matching.Consistency.MassCancelling.{ids_in, mass_cancel_lem}
use hft_clob_core.Matching.Modify.{mass_cancel}
use hft_clob_core.Wire.Inbound.{CancelOrder, MassCancel}
use hft_clob_core.Wire.Outbound.{RecvTs}
use hft_clob_core.Engine.{Engine, Clock, emit}
use hft_clob_core.Engine.Reports.{emit_rejected, emit_rejected_mass, emit_exec_report_cancelled}
use hft_clob_core.Engine.Changes.{
  is_foreign, reject_cancel, after_cancel, cancel_own, handle_cancel_order, report_mass,
  cancel_account, handle_mass_cancel,
}
use hft_clob_core.Engine.Effects.Commands.{guarded-either}
use hft_clob_core.Engine.Registry.{Covers, IsSettled, owner_of, drop_entry-IsSettled}

module _ {L : Type 0} ⦃pl : PriceLevel L⦄ ⦃law : IsPriceLevel pl⦄ where
  -- The ids that a mass cancel records are those of the account's orders.
  pub recorded_ids :
      (a : AccountId) (b : Book L) (j : OrderId)
      → IsBook b
      → BTreeSet.contains j (ids_in (mass_cancel a (b, [])).1) ≡ is_owned (b.index j) a
  unfolding BTreeSet.contains
  recorded_ids a b j v =
      ap (BTreeSet.contains j) (mass_cancel_lem a b [] v).2 ∙ elim (Option-cases (b.by_account a)) [
        | inl e ↦ ground (arith, e, v.consistent.owned a j)
        | inr (s, e) ↦ ground (arith, e, v.consistent.owned a j)
      ]

module _ {L G C : Type 0} ⦃pl : PriceLevel L⦄ ⦃law : IsPriceLevel pl⦄ ⦃gen : IdGenerator G⦄
    ⦃clk : Clock C⦄ where
  cancelled-Covers :
      (msg : CancelOrder) (t : RecvTs) (e : Engine L G C)
      → IsBook e.book
      → Covers e
      → Covers (
          after_cancel msg t
            (cancel msg.order_id e.book).1
            (record e { book = (cancel msg.order_id e.book).0 }))
  unfolding after_cancel emit_rejected emit_exec_report_cancelled emit
  cancelled-Covers msg t e v c i m =
      let index = index-cancel msg.order_id i e.book v in
      let after : Engine L G C = record e { book = (cancel msg.order_id e.book).0 } in
      let d = drop_entry-IsSettled msg.order_id after in
      elim (Result-cases (cancel msg.order_id e.book).1) [
        | inl (u, x) ↦
            rw (x, after_cancel)
              λ h.
                let left = ap (λ b. b.index i) d.book in
                ground (arith, index, d.owner i, left, c i m)
        | inr (u, x) ↦ rw (x, after_cancel) λ h. ground (arith, index, c i m)
      ]

  pub handle_cancel_order-Covers :
      (msg : CancelOrder) (t : RecvTs) (e : Engine L G C)
      → IsBook e.book
      → Covers e
      → Covers (handle_cancel_order msg t e)
  unfolding handle_cancel_order cancel_own emit_rejected emit
  handle_cancel_order-Covers msg t e v c =
      guarded-either Covers _ _ (cancel_own msg t) e (λ r. c)
        (elim (is_foreign (e.registry msg.order_id) msg.account_id)
          as (λ b. Covers (
            if b
            then reject_cancel msg t RejectReason.unknown_order_id e
            else after_cancel msg t (cancel msg.order_id e.book).1
                (record e { book = (cancel msg.order_id e.book).0 }))) [
                  | true ↦ c
                  | false ↦ cancelled-Covers msg t e v c
                ])

  -- The reports of a mass cancel drop the entries of the orders they name.
  report_mass-IsSettled :
      (msg : MassCancel) (t : RecvTs) (out : List MassCancellation) (e : Engine L G C)
      → IsSettled (λ j. BTreeSet.contains j (ids_in out)) e (report_mass msg t out e)
  unfolding report_mass emit_exec_report_cancelled emit BTreeSet.contains
  report_mass-IsSettled msg t [] e = record { book = refl; stp_buf = refl; owner = λ j. refl }
  report_mass-IsSettled msg t (mc ∷ mcs) e =
      let s = drop_entry-IsSettled mc.order_id e in
      let rest = report_mass-IsSettled msg t mcs _ in
      record {
        book = rest.book ∙ s.book;
        stp_buf = rest.stp_buf ∙ s.stp_buf;
        owner = λ j. ground (arith, rest.owner j, s.owner j);
      }

  -- A mass cancel that is not rejected takes exactly the account's orders off the book and out of
  -- the registry.
  cancel_account_lem :
      (msg : MassCancel) (t : RecvTs) (e : Engine L G C)
      → IsBook e.book
      → (j : OrderId)
      → let e' = cancel_account msg t e in
        let mine = is_owned (e.book.index j) msg.account_id in
        (e'.book.index j ≡ (if mine then none else e.book.index j))
        × (owner_of (e'.registry j) ≡ (if mine then none else owner_of (e.registry j)))
  unfolding cancel_account
  cancel_account_lem msg t e v j =
      let r = mass_cancel msg.account_id (e.book, []) in
      let d = report_mass-IsSettled msg t r.1 (record e { book = r.0; mass_buf = r.1 }) in
      (
        ap (λ b. b.index j) d.book ∙ (mass_cancel_lem msg.account_id e.book [] v).1 j,
        rw (recorded_ids msg.account_id e.book j v) at (d.owner j),
      )

  pub handle_mass_cancel-Covers :
      (msg : MassCancel) (t : RecvTs) (e : Engine L G C)
      → IsBook e.book
      → Covers e
      → Covers (handle_mass_cancel msg t e)
  unfolding handle_mass_cancel emit_rejected_mass emit_rejected emit
  handle_mass_cancel-Covers msg t e v c =
      guarded-either Covers _ _ (cancel_account msg t) e (λ r. c)
        λ i m h. ground (arith, cancel_account_lem msg t e v i, c i m)
