-- ===== src/Engine/Rejecting.antt =====
-- Commands that crates/engine/src/engine.rs refuses: nothing changes, and the refusal is sent.
use hft_clob_core.Prelude.{
  ℕ, zero, suc, ◌+◌, ◌≡◌, refl, ◌≢◌, true, false, [], ◌∷◌, ◌++◌, append_assoc, Option, none, some,
  Result, ok, err, length, if◌then◌else◌, ◌==◌, arith,
}
use hft_clob_core.Domain.Side
use hft_clob_core.Domain.Side.{Side, bid, ask}
use hft_clob_core.Domain.OrderId.{OrderId}
use hft_clob_core.Domain.AccountId.{AccountId}
use hft_clob_core.Domain.ExecState
use hft_clob_core.Domain.RejectReason.{RejectReason, kill_switched, unknown_order_id}
use hft_clob_core.Matching.Types.{OrderMeta, IdGenerator}
use hft_clob_core.Matching.Level.{PriceLevel}
use hft_clob_core.Matching.Book.{best_of}
use hft_clob_core.Risk.{check_cancel, check_cancel_replace}
use hft_clob_core.Risk.Checks.{kill_switch_rejects}
use hft_clob_core.Wire.Inbound.{
  CancelOrder, CancelReplace, Inbound, new_order, cancel_order, cancel_replace, mass_cancel,
  kill_switch_set, snapshot_request,
}
use hft_clob_core.Wire.Outbound.{RecvTs, ExecReport, BookUpdateTop, exec_report, book_update_top}
use hft_clob_core.Engine.{Engine, Clock, OrderRegistryEntry, emit}
use hft_clob_core.Engine.Reports.{emit_rejected, emit_rejected_mass, emit_book_update_top}
use hft_clob_core.Engine.Entry.{guarded, handle_new_order}
use hft_clob_core.Engine.Changes.{
  is_foreign, cancel_own, handle_cancel_order, replace_own, handle_cancel_replace,
  handle_mass_cancel,
}
use hft_clob_core.Engine.Deltas.{
  StepLevels, same_key, diff_round, diff, emit_l2_deltas, capture_levels, capture_pre_step_levels,
  capture_post_step_levels,
}
use hft_clob_core.Engine.Step.{with_book_changes, dispatch, step}
use hft_clob_core.Engine.Registry.{Covers, owner_of}

module _ {L G C : Type 0} where
  -- From `e` to `e'` nothing has changed but that a rejection for that reason and the top of the
  -- book were sent.
  pub record IsRejected (reason : RejectReason) (e e' : Engine L G C) : Type 0 where
    pub book : e'.book ≡ e.book
    pub risk : e'.risk ≡ e.risk
    pub registry : e'.registry ≡ e.registry
    pub report : ExecReport
    pub top : BookUpdateTop
    pub sent : e'.sink ≡ e.sink ++ exec_report report ∷ book_update_top top ∷ []
    pub is_rejected : report.state ≡ ExecState.rejected
    pub says_why : report.reject_reason ≡ some reason

same_key_refl : (s : Side) (p : ℕ) → same_key s p s p ≡ true
unfolding same_key Side.as_u8
same_key_refl bid p = ground arith
same_key_refl ask p = ground arith

module _ {L G C : Type 0} ⦃gen : IdGenerator G⦄ ⦃clk : Clock C⦄ where
  -- Between equal levels there is no delta.
  diff-same : (fuel : ℕ) (lv : StepLevels) (e : Engine L G C) → diff fuel lv lv e ≡ e
  unfolding diff diff_round
  diff-same zero lv e = refl
  diff-same (suc fuel) [] e = diff-same fuel [] e
  diff-same (suc fuel) ((s, p, n) ∷ lv) e =
      let same : (n == n) ≡ true = ground arith in
      rw (same_key_refl s p, same) (diff-same fuel lv e)

module _ {L G C : Type 0} ⦃pl : PriceLevel L⦄ ⦃gen : IdGenerator G⦄ ⦃clk : Clock C⦄ where
  IsRejected-changes :
      (handle : Engine L G C → Engine L G C) (e : Engine L G C) (i : OrderId) (a : AccountId)
      → (r : RejectReason) (t : RecvTs)
      → handle (capture_pre_step_levels e) ≡ emit_rejected i a r t (capture_pre_step_levels e)
      → IsRejected r e (with_book_changes handle e)
  unfolding with_book_changes capture_pre_step_levels capture_post_step_levels emit_l2_deltas
      emit_rejected emit_book_update_top emit
  IsRejected-changes handle e i a r t h =
      let lv = capture_levels e.book in
      rw (h, diff-same (length lv + length lv) lv)
        (record {
          book = refl;
          risk = refl;
          registry = refl;
          report = _;
          top = _;
          sent = append_assoc e.sink _ _;
          is_rejected = refl;
          says_why = refl;
        })

  -- The reading of the clock at the beginning of a step is no part of what is rejected.
  with_clock :
      (r : RejectReason) (c : C) (e e' : Engine L G C)
      → IsRejected r (record e { clock = c }) e'
      → IsRejected r e e'
  with_clock r c e e' x = record {
    book = x.book;
    risk = x.risk;
    registry = x.registry;
    report = x.report;
    top = x.top;
    sent = x.sent;
    is_rejected = x.is_rejected;
    says_why = x.says_why;
  }

foreign_entry :
    (x : Option OrderRegistryEntry) (m : OrderMeta) (a : AccountId)
    → owner_of x ≡ some (m.account_id, m.side)
    → m.account_id ≢ a
    → is_foreign x a ≡ true
foreign_entry none m a h k = absurd (ground arith)
foreign_entry (some x) m a h k = ground arith

-- The order that a command cancels or replaces, and the account that asks for it.
abbrev pub changed_order : Inbound → Option (OrderId × AccountId)
changed_order (new_order msg) = none
changed_order (cancel_order msg) = some (msg.order_id, msg.account_id)
changed_order (cancel_replace msg) = some (msg.order_id, msg.account_id)
changed_order (mass_cancel msg) = none
changed_order (kill_switch_set msg) = none
changed_order (snapshot_request msg) = none

-- The commands of the clients.
abbrev pub IsOrderCommand : Inbound → Type 0
IsOrderCommand (new_order msg) = Unit {0}
IsOrderCommand (cancel_order msg) = Unit {0}
IsOrderCommand (cancel_replace msg) = Unit {0}
IsOrderCommand (mass_cancel msg) = Unit {0}
IsOrderCommand (kill_switch_set msg) = ⊥
IsOrderCommand (snapshot_request msg) = ⊥

module _ {L G C : Type 0} ⦃pl : PriceLevel L⦄ ⦃gen : IdGenerator G⦄ ⦃clk : Clock C⦄ where
  halted_dispatch :
      (inbound : Inbound) (t : RecvTs) (e : Engine L G C)
      → e.risk.kill_switch ≡ true
      → IsOrderCommand inbound
      → IsRejected kill_switched e (dispatch inbound t e)
  unfolding dispatch handle_new_order handle_cancel_order handle_cancel_replace handle_mass_cancel
      guarded emit_rejected_mass capture_pre_step_levels
  halted_dispatch (new_order msg) t e h c =
      IsRejected-changes (handle_new_order msg t) e msg.order_id msg.account_id kill_switched t
        (rw ((kill_switch_rejects e.risk h).0 msg (best_of (Side.opposite msg.side) e.book)) refl)
  halted_dispatch (cancel_order msg) t e h c =
      IsRejected-changes (handle_cancel_order msg t) e msg.order_id msg.account_id kill_switched t
        (rw ((kill_switch_rejects e.risk h).1 msg) refl)
  halted_dispatch (cancel_replace msg) t e h c =
      IsRejected-changes (handle_cancel_replace msg t) e msg.order_id msg.account_id kill_switched t
        (rw ((kill_switch_rejects e.risk h).2 msg) refl)
  halted_dispatch (mass_cancel msg) t e h c =
      IsRejected-changes (handle_mass_cancel msg t) e 1 msg.account_id kill_switched t
        (rw ((kill_switch_rejects e.risk h).3 msg) refl)
  halted_dispatch (kill_switch_set msg) t e h c = absurd c
  halted_dispatch (snapshot_request msg) t e h c = absurd c

  -- While the kill switch is engaged, a step of a new order, a cancel, a replace or a mass cancel
  -- changes neither the book nor the risk state nor the registry, and sends exactly two messages: a
  -- rejection for the kill switch and the top of the book.
  pub halted_step :
      (inbound : Inbound) (e : Engine L G C)
      → e.risk.kill_switch ≡ true
      → IsOrderCommand inbound
      → IsRejected kill_switched e (step inbound e)
  unfolding step
  halted_step inbound e h c =
      with_clock kill_switched (clk.now e.clock).1 e _
        (halted_dispatch inbound (clk.now e.clock).0 (record e { clock = (clk.now e.clock).1 }) h c)

  -- A guarded handler that refuses refuses.
  guarded_refuses :
      (check : Result RejectReason (Unit {0})) (i : OrderId) (a : AccountId) (t : RecvTs)
      → (proceed : Engine L G C → Engine L G C) (e : Engine L G C)
      → proceed e ≡ emit_rejected i a unknown_order_id t e
      → (r : RejectReason) × (guarded check (λ r. emit_rejected i a r t) proceed e
          ≡ emit_rejected i a r t e)
  unfolding guarded
  guarded_refuses (err r) i a t proceed e h = (r, refl)
  guarded_refuses (ok u) i a t proceed e h =
      elim e.risk.kill_switch
        as (λ b.
          (r : RejectReason) × ((if b then emit_rejected i a kill_switched t e else proceed e)
            ≡ emit_rejected i a r t e)) [
              | true ↦ (kill_switched, refl)
              | false ↦ (unknown_order_id, h)
            ]

  foreign_refused :
      (e : Engine L G C) (i : OrderId) (m : OrderMeta)
      → Covers e
      → e.book.index i ≡ some m
      → ((msg : CancelOrder)
          → msg.order_id ≡ i
          → m.account_id ≢ msg.account_id
          → (r : RejectReason) × IsRejected r e (step (cancel_order msg) e))
        × ((msg : CancelReplace)
            → msg.order_id ≡ i
            → m.account_id ≢ msg.account_id
            → (r : RejectReason) × IsRejected r e (step (cancel_replace msg) e))
  unfolding step dispatch handle_cancel_order cancel_own handle_cancel_replace replace_own
      capture_pre_step_levels
  foreign_refused e i m c h = (
    λ msg x other.
        let t = (clk.now e.clock).0 in
        let e1 : Engine L G C = record e { clock = (clk.now e.clock).1 } in
        let pre = capture_pre_step_levels e1 in
        let foreign : is_foreign (e.registry msg.order_id) msg.account_id ≡ true =
          rw x (foreign_entry (e.registry i) m msg.account_id (c i m h) other) in
        let (r, refused) =
          guarded_refuses (check_cancel msg e.risk) msg.order_id msg.account_id t (cancel_own msg t)
            pre (rw foreign refl) in
        (
          r,
          with_clock r (clk.now e.clock).1 e _ (
              IsRejected-changes (handle_cancel_order msg t) e1 msg.order_id msg.account_id r t
                refused),
        ),
    λ msg x other.
        let t = (clk.now e.clock).0 in
        let e1 : Engine L G C = record e { clock = (clk.now e.clock).1 } in
        let pre = capture_pre_step_levels e1 in
        let foreign : is_foreign (e.registry msg.order_id) msg.account_id ≡ true =
          rw x (foreign_entry (e.registry i) m msg.account_id (c i m h) other) in
        let (r, refused) =
          guarded_refuses (check_cancel_replace msg e.risk) msg.order_id msg.account_id t
            (replace_own msg t) pre (rw foreign refl) in
        (
          r,
          with_clock r (clk.now e.clock).1 e _ (
              IsRejected-changes (handle_cancel_replace msg t) e1 msg.order_id msg.account_id r t
                refused),
        ),
  )

  -- While every order on the book is registered, a cancel or a replace of an order on the book by
  -- another account than its owner's changes neither the book nor the risk state nor the registry;
  -- what is sent is a rejection and the top of the book.
  pub foreign-IsRejected :
      (e : Engine L G C) (i : OrderId) (m : OrderMeta) (inbound : Inbound) (a : AccountId)
      → Covers e
      → e.book.index i ≡ some m
      → changed_order inbound ≡ some (i, a)
      → m.account_id ≢ a
      → (r : RejectReason) × IsRejected r e (step inbound e)
  foreign-IsRejected e i m (cancel_order msg) a c h x other =
      (foreign_refused e i m c h).0 msg (ground arith) λ same. other (ground (arith, same))
  foreign-IsRejected e i m (cancel_replace msg) a c h x other =
      (foreign_refused e i m c h).1 msg (ground arith) λ same. other (ground (arith, same))
  foreign-IsRejected e i m (new_order msg) a c h x other = absurd (ground arith)
  foreign-IsRejected e i m (mass_cancel msg) a c h x other = absurd (ground arith)
  foreign-IsRejected e i m (kill_switch_set msg) a c h x other = absurd (ground arith)
  foreign-IsRejected e i m (snapshot_request msg) a c h x other = absurd (ground arith)
