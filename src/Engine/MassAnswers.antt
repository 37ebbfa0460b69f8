-- ===== src/Engine/MassAnswers.antt =====
-- `handle_mass_cancel` of crates/engine/src/engine.rs: one report for each order it cancels.
use hft_clob_core.Prelude.{
  ◌≡◌, refl, ◌∙◌, ◌==◌, arith, ap, ap₂, inl, inr, false, List, [], ◌∷◌, ◌++◌, map, append_assoc,
  append-nil, sym, Option, none, some, Option-cases, if◌then◌else◌,
}
use hft_clob_core.Collections.BTreeSet
use hft_clob_core.Collections.HashMap
use hft_clob_core.Domain.Side.{Side}
use hft_clob_core.Domain.Price.{Price}
use hft_clob_core.Domain.OrderId.{OrderId}
use hft_clob_core.Domain.CancelReason.{CancelReason}
use hft_clob_core.Matching.Types.{MassCancellation, IdGenerator}
use hft_clob_core.Matching.Level.{PriceLevel, IsPriceLevel}
use hft_clob_core.Matching.Consistency.{IsBook, is_owned}
use hft_clob_core.Matching.Consistency.MassCancelling.{ids_in, ids_of_account, mass_cancel_lem}
use hft_clob_core.Matching.Consistency.MassCancelling.Queues.{without, queue_at-mass_cancel}
use hft_clob_core.Matching.Modify.{mass_cancel}
use hft_clob_core.Matching.View.{queue_at}
use hft_clob_core.Risk.{check_mass_cancel}
use hft_clob_core.Wire.Inbound.{MassCancel}
use hft_clob_core.Wire.Outbound.{
  Outbound, RecvTs, exec_report, trade_print, book_update_top, book_update_l2_delta,
  snapshot_response,
}
use hft_clob_core.Engine.{Engine, Clock, drop_entry, emit}
use hft_clob_core.Engine.Reports.{emit_exec_report_cancelled}
use hft_clob_core.Engine.Entry.{guarded}
use hft_clob_core.Engine.Changes.{report_mass, cancel_account, handle_mass_cancel}
use hft_clob_core.Engine.Registry.Cancelling.{recorded_ids}

-- The order that a report says a mass cancel has cancelled.
abbrev pub named_if_mass : Option CancelReason → OrderId → Option OrderId
named_if_mass none i = none
named_if_mass (some CancelReason.user_requested) i = none
named_if_mass (some CancelReason.mass_cancel) i = some i
named_if_mass (some CancelReason.ioc_remaining) i = none
named_if_mass (some CancelReason.self_trade_prevented) i = none
named_if_mass (some CancelReason.replaced) i = none

abbrev pub mass_cancelled : Outbound → Option OrderId
mass_cancelled (exec_report m) = named_if_mass m.cancel_reason m.order_id
mass_cancelled (trade_print m) = none
mass_cancelled (book_update_top m) = none
mass_cancelled (book_update_l2_delta m) = none
mass_cancelled (snapshot_response m) = none

module _ {L G C : Type 0} where
  drop_entry-sink : (i : OrderId) (e : Engine L G C) → (drop_entry i e).sink ≡ e.sink
  unfolding drop_entry
  drop_entry-sink i e = elim (Option-cases (e.registry i)) [
    | inl h ↦ rw (h, drop_entry) refl
    | inr (x, h) ↦ rw (h, drop_entry) refl
  ]

  drop_entry-registry :
      (i j : OrderId) (e : Engine L G C)
      → ((drop_entry i e).registry j ≡ (if j == i then none else e.registry j))
        × ((drop_entry i e).book ≡ e.book)
  unfolding drop_entry HashMap.remove
  drop_entry-registry i j e = elim (Option-cases (e.registry i)) [
    | inl h ↦ rw (h, drop_entry) (ground (arith, h), refl)
    | inr (x, h) ↦ rw (h, drop_entry) (ground arith, refl)
  ]

module _ {L G C : Type 0} ⦃gen : IdGenerator G⦄ ⦃clk : Clock C⦄ where
  cancelled-sent :
      (mc : MassCancellation) (t : RecvTs) (e : Engine L G C)
      → (m : Outbound) × ((emit_exec_report_cancelled mc.order_id mc.account_id
            CancelReason.mass_cancel t e).sink
          ≡ e.sink ++ m ∷ [])
        × (mass_cancelled m ≡ some mc.order_id)
  unfolding emit_exec_report_cancelled emit
  cancelled-sent mc t e = (_, refl, refl)

module _ {L G C : Type 0} ⦃pl : PriceLevel L⦄ ⦃gen : IdGenerator G⦄ ⦃clk : Clock C⦄
    (msg : MassCancel) (t : RecvTs) where
  report_mass-sent :
      (out : List MassCancellation) (e : Engine L G C)
      → (new : List Outbound) × ((report_mass msg t out e).sink ≡ e.sink ++ new)
        × (map mass_cancelled new ≡ map some (ids_in out))
  unfolding report_mass
  report_mass-sent [] e = ([], sym (append-nil e.sink), refl)
  report_mass-sent (mc ∷ mcs) e =
      let dropped = drop_entry mc.order_id e in
      let (m, first, is_named) = cancelled-sent mc t dropped in
      let (new, sent, named) =
        report_mass-sent mcs (
          emit_exec_report_cancelled mc.order_id mc.account_id CancelReason.mass_cancel t
            dropped) in
      (
        m ∷ new,
        sent
            ∙ ap (λ l. l ++ new) (first ∙ ap (λ l. l ++ m ∷ []) (drop_entry-sink mc.order_id e))
            ∙ append_assoc e.sink (m ∷ []) new,
        ap₂ (λ x l. x ∷ l) is_named named,
      )

  -- The reports drop the entries of the orders they name, and leave the other entries alone.
  report_mass-registry :
      (out : List MassCancellation) (j : OrderId) (e : Engine L G C)
      → ((report_mass msg t out e).registry j
          ≡ (if BTreeSet.contains j (ids_in out) then none else e.registry j))
        × ((report_mass msg t out e).book ≡ e.book)
  unfolding report_mass emit_exec_report_cancelled emit BTreeSet.contains
  report_mass-registry [] j e = (refl, refl)
  report_mass-registry (mc ∷ mcs) j e =
      let (entry, book) = drop_entry-registry mc.order_id j e in
      let (rest, same) = report_mass-registry mcs j _ in (ground (arith, rest, entry), same ∙ book)

module _ {L G C : Type 0} ⦃pl : PriceLevel L⦄ ⦃law : IsPriceLevel pl⦄ ⦃gen : IdGenerator G⦄
    ⦃clk : Clock C⦄ where
  -- What a mass cancel that is not rejected leaves of the queues, the sidecar and the registry.
  mass_cancel_left :
      (msg : MassCancel) (t : RecvTs) (e : Engine L G C)
      → IsBook e.book
      → let e' = cancel_account msg t e in
        let mine = λ (j : OrderId). is_owned (e.book.index j) msg.account_id in
        ((s : Side) (p : Price) → queue_at s p e'.book ≡ without mine (queue_at s p e.book))
        × ((j : OrderId) → e'.book.index j ≡ (if mine j then none else e.book.index j))
        × ((j : OrderId) → e'.registry j ≡ (if mine j then none else e.registry j))
  unfolding cancel_account
  mass_cancel_left msg t e v =
      let a = msg.account_id in
      let r = mass_cancel a (e.book, []) in
      let left = λ (j : OrderId).
        report_mass-registry msg t r.1 j (record e { book = r.0; mass_buf = r.1 }) in
      (
        λ s p. ap (queue_at s p) (left 0).1 ∙ queue_at-mass_cancel a e.book [] s p v,
        λ j. ap (λ b. b.index j) (left j).1 ∙ (mass_cancel_lem a e.book [] v).1 j,
        λ j. rw (recorded_ids a e.book j v) at (left j).0,
      )

  mass_cancel_accepted :
      (msg : MassCancel) (t : RecvTs) (e : Engine L G C)
      → e.risk.kill_switch ≡ false
      → handle_mass_cancel msg t e ≡ cancel_account msg t e
  unfolding handle_mass_cancel guarded check_mass_cancel
  mass_cancel_accepted msg t e off = simp off refl

  mass_cancel_sent :
      (msg : MassCancel) (t : RecvTs) (e : Engine L G C)
      → IsBook e.book
      → (new : List Outbound) × ((cancel_account msg t e).sink ≡ e.sink ++ new)
        × (map mass_cancelled new ≡ map some (ids_of_account msg.account_id e.book))
  unfolding cancel_account
  mass_cancel_sent msg t e v =
      let r = mass_cancel msg.account_id (e.book, []) in
      let (new, sent, named) =
        report_mass-sent msg t r.1 (record e { book = r.0; mass_buf = r.1 }) in
      (new, sent, named ∙ ap (map some) (mass_cancel_lem msg.account_id e.book [] v).2)

  -- With the kill switch off and a well-formed book, a mass cancel takes the account's orders out of
  -- every queue, where the others keep their place, and exactly their entries out of the sidecar and
  -- of the registry, where every other entry is as before; it sends one report for each order it
  -- cancels and nothing else, in ascending order of the ids.
  pub mass_cancel_reports :
      (msg : MassCancel) (t : RecvTs) (e : Engine L G C)
      → e.risk.kill_switch ≡ false
      → IsBook e.book
      → let e' = handle_mass_cancel msg t e in
        let mine = λ (j : OrderId). is_owned (e.book.index j) msg.account_id in
        (((s : Side) (p : Price) → queue_at s p e'.book ≡ without mine (queue_at s p e.book))
          × ((j : OrderId) → e'.book.index j ≡ (if mine j then none else e.book.index j))
          × ((j : OrderId) → e'.registry j ≡ (if mine j then none else e.registry j)))
        × ((new : List Outbound) × (e'.sink ≡ e.sink ++ new)
            × (map mass_cancelled new ≡ map some (ids_of_account msg.account_id e.book)))
        × BTreeSet.IsAscending (ids_of_account msg.account_id e.book)
  mass_cancel_reports msg t e off v = rw (mass_cancel_accepted msg t e off) (
    mass_cancel_left msg t e v,
    mass_cancel_sent msg t e v,
    (mass_cancel_lem msg.account_id e.book [] v).3,
  )
