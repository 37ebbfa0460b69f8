-- ===== src/Engine/Answers.antt =====
-- Every command of a client about an order is answered by crates/engine/src/engine.rs.
pub mod Replying
pub mod Stepping
use hft_clob_core.Prelude.{
  ◌≡◌, refl, ◌∙◌, sym, Bool, true, false, ◌||◌, List, [], ◌∷◌, ◌++◌, append_assoc, append-nil, ◌==◌,
  arith,
}
use hft_clob_core.Domain.OrderId.{OrderId}
use hft_clob_core.Domain.AccountId.{AccountId}
use hft_clob_core.Domain.Qty.{Qty}
use hft_clob_core.Domain.CancelReason.{CancelReason}
use hft_clob_core.Domain.RejectReason.{RejectReason}
use hft_clob_core.Matching.Types.{IdGenerator}
use hft_clob_core.Wire.Outbound.{
  Outbound, RecvTs, exec_report, trade_print, book_update_top, book_update_l2_delta,
  snapshot_response,
}
use hft_clob_core.Engine.{Engine, Clock, emit}
use hft_clob_core.Engine.Reports.{
  emit_rejected, emit_exec_report_accepted, emit_exec_report_cancelled, emit_exec_report_replaced,
}

-- A report about the order.
abbrev pub is_report : OrderId → Outbound → Bool
is_report i (exec_report m) = m.order_id == i
is_report i (trade_print m) = false
is_report i (book_update_top m) = false
is_report i (book_update_l2_delta m) = false
is_report i (snapshot_response m) = false

abbrev pub has_report : OrderId → List Outbound → Bool
has_report i [] = false
has_report i (m ∷ ms) = is_report i m || has_report i ms

has_report-append :
    (i : OrderId) (xs ys : List Outbound)
    → has_report i (xs ++ ys) ≡ (has_report i xs || has_report i ys)
has_report-append i [] ys = refl
has_report-append i (x ∷ xs) ys = ground (arith, has_report-append i xs ys)

module _ {L G C : Type 0} where
  -- From `e` to `e'` messages are sent.
  pub record Sends (e e' : Engine L G C) : Type 0 where
    pub messages : List Outbound
    pub sent : e'.sink ≡ e.sink ++ messages

  -- One of them is a report about the order.
  pub record IsAnswered (i : OrderId) (e e' : Engine L G C) : Type 0 where
    pub messages : List Outbound
    pub sent : e'.sink ≡ e.sink ++ messages
    pub answers : has_report i messages ≡ true

  pub unsent : (e e' : Engine L G C) → e'.sink ≡ e.sink → Sends e e'
  unsent e e' h = record { messages = []; sent = h ∙ sym (append-nil e.sink) }

  pub IsAnswered-before :
      (i : OrderId) {a b c : Engine L G C} → IsAnswered i a b → Sends b c → IsAnswered i a c
  IsAnswered-before i {a} h k = record {
    messages = h.messages ++ k.messages;
    sent = rw (k.sent, h.sent) (append_assoc a.sink h.messages k.messages);
    answers = ground (arith, has_report-append i h.messages k.messages, h.answers);
  }

  pub IsAnswered-after :
      (i : OrderId) {a b c : Engine L G C} → Sends a b → IsAnswered i b c → IsAnswered i a c
  IsAnswered-after i {a} h k = record {
    messages = h.messages ++ k.messages;
    sent = rw (k.sent, h.sent) (append_assoc a.sink h.messages k.messages);
    answers = ground (arith, has_report-append i h.messages k.messages, k.answers);
  }

module _ {L G C : Type 0} ⦃gen : IdGenerator G⦄ ⦃clk : Clock C⦄ where
  pub rejected_answers :
      (i : OrderId) (a : AccountId) (r : RejectReason) (t : RecvTs) (e : Engine L G C)
      → IsAnswered i e (emit_rejected i a r t e)
  unfolding emit_rejected emit
  rejected_answers i a r t e = record { messages = _; sent = refl; answers = ground arith }

  pub accepted_answers :
      (i : OrderId) (a : AccountId) (q : Qty) (t : RecvTs) (e : Engine L G C)
      → IsAnswered i e (emit_exec_report_accepted i a q t e)
  unfolding emit_exec_report_accepted emit
  accepted_answers i a q t e = record { messages = _; sent = refl; answers = ground arith }

  pub cancelled_answers :
      (i : OrderId) (a : AccountId) (r : CancelReason) (t : RecvTs) (e : Engine L G C)
      → IsAnswered i e (emit_exec_report_cancelled i a r t e)
  unfolding emit_exec_report_cancelled emit
  cancelled_answers i a r t e = record { messages = _; sent = refl; answers = ground arith }

  pub replaced_answers :
      (i : OrderId) (a : AccountId) (q : Qty) (t : RecvTs) (e : Engine L G C)
      → IsAnswered i e (emit_exec_report_replaced i a q t e)
  unfolding emit_exec_report_replaced emit
  replaced_answers i a q t e = record { messages = _; sent = refl; answers = ground arith }
