-- ===== src/Wire/Outbound/ExecReports/RoundTrip.antt =====
-- What crates/wire/src/outbound/exec_report.rs reads back of what it writes.
use hft_clob_core.Prelude.{
  ℕ, ◌≡◌, refl, ◌∙◌, ap, false, ok, Option, none, some, is_some, List, ◌++◌, arith,
}
use hft_clob_core.Prelude.Int.{as_u64-lt, as_i64-as_u64}
use hft_clob_core.Domain.ExecState.{
  ExecState, ExecState-IsCode, accepted, rejected, partially_filled, filled, cancelled, replaced,
}
use hft_clob_core.Domain.RejectReason.{RejectReason}
use hft_clob_core.Domain.CancelReason.{CancelReason}
use hft_clob_core.Domain.Price.{Price}
use hft_clob_core.Domain.Qty.{Qty}
use hft_clob_core.Domain.OrderId
use hft_clob_core.Domain.OrderId.{OrderId, IsOrderId}
use hft_clob_core.Domain.AccountId
use hft_clob_core.Domain.AccountId.{AccountId, IsAccountId}
use hft_clob_core.Wire.Layout.{Layout, IsLayout}
use hft_clob_core.Wire.Outbound.{ExecReport}
use hft_clob_core.Wire.Outbound.ExecReports.{
  ExecReportWire, coherent, validate_coherent, validate, to_wire, parse, encode,
}
use hft_clob_core.Wire.Outbound.ExecReports.Fields.{
  FitsExecReport, IsExecReport, carries_fill, carries_leaves, carries_reject, carries_cancel, kept,
  canonical, optional_reject, optional_cancel, optional_leaves, ReadsFill, fill_of,
}

validate-to_wire :
    (m : ExecReport)
    → IsExecReport m
    → validate_coherent (canonical m) ≡ ok tt
    → validate (to_wire m) ≡ ok (canonical m)
unfolding validate to_wire canonical ReadsFill
validate-to_wire m v h =
    let (_, _, price, qty) = fill_of m v h in
    rw
      (
        ExecState-IsCode.decode-encode m.state,
        OrderId.new_raw m.order_id v.order_id.0,
        AccountId.new_raw m.account_id v.account_id.0,
        (optional_reject m.state m.reject_reason).1,
        (optional_cancel m.state m.cancel_reason).1,
        price,
        qty,
        (optional_leaves m.state m.leaves_qty v.leaves_qty).1,
        as_i64-as_u64 m.recv_ts v.recv_ts,
        as_i64-as_u64 m.emit_ts v.emit_ts,
        h,
      )
      refl

to_wire-FitsExecReport :
    (m : ExecReport)
    → IsExecReport m
    → validate_coherent (canonical m) ≡ ok tt
    → FitsExecReport (to_wire m)
unfolding to_wire ReadsFill
to_wire-FitsExecReport m v h =
    let (price, qty, _, _) = fill_of m v h in
    record {
      engine_seq = v.engine_seq;
      order_id = v.order_id.1;
      account_id = v.account_id.1;
      state = ExecState-IsCode.is_byte m.state;
      reject_reason = (optional_reject m.state m.reject_reason).0;
      cancel_reason = (optional_cancel m.state m.cancel_reason).0;
      pad0 = omega arith;
      fill_price = price;
      fill_qty = qty;
      leaves_qty = (optional_leaves m.state m.leaves_qty v.leaves_qty).0;
      recv_ts = as_u64-lt m.recv_ts v.recv_ts;
      emit_ts = as_u64-lt m.emit_ts v.emit_ts;
    }

module _ ⦃lay : Layout ExecReportWire⦄ where
  -- Where the packed layout reads back what it writes, a report with valid fields is appended to
  -- the buffer as a payload that is read back without the fields that its state does not have, if
  -- the report is coherent once these are missing.
  pub exec_report-parse-encode :
      IsLayout FitsExecReport lay
      → (m : ExecReport) (out : List ℕ) → IsExecReport m
      → validate_coherent (canonical m) ≡ ok tt
      → (payload : List ℕ) × (encode m out ≡ out ++ payload) × (parse payload ≡ ok (canonical m))
  unfolding encode parse
  exec_report-parse-encode law m out v h = (
    lay.as_bytes (to_wire m),
    refl,
    rw (law.ref_from_bytes-as_bytes (to_wire m) (to_wire-FitsExecReport m v h))
        (validate-to_wire m v h),
  )

missing : {A : Type 0} (x : Option A) → is_some x ≡ false → none ≡ x
missing none h = refl
missing (some a) h = cc

kept-coherent :
    (s : ExecState) (p : Option Price) (q leaves : Option Qty) (r : Option RejectReason)
    → (x : Option CancelReason) → coherent s p q leaves r x ≡ ok tt
    → (kept (carries_fill s) p ≡ p)
      × (kept (carries_fill s) q ≡ q)
      × (kept (carries_leaves s) leaves ≡ leaves)
      × (kept (carries_reject s) r ≡ r)
      × (kept (carries_cancel s) x ≡ x)
unfolding coherent
kept-coherent accepted p q leaves r x h = (
  missing p (ground arith),
  missing q (ground arith),
  refl,
  missing r (ground arith),
  missing x (ground arith),
)
kept-coherent rejected p q leaves r x h = (
  missing p (ground arith),
  missing q (ground arith),
  missing leaves (ground arith),
  refl,
  missing x (ground arith),
)
kept-coherent partially_filled p q leaves r x h =
    (refl, refl, refl, missing r (ground arith), missing x (ground arith))
kept-coherent filled p q leaves r x h =
    (refl, refl, missing leaves (ground arith), missing r (ground arith), missing x (ground arith))
kept-coherent cancelled p q leaves r x h = (
  missing p (ground arith),
  missing q (ground arith),
  missing leaves (ground arith),
  missing r (ground arith),
  refl,
)
kept-coherent replaced p q leaves r x h = (
  missing p (ground arith),
  missing q (ground arith),
  missing leaves (ground arith),
  missing r (ground arith),
  refl,
)

-- A coherent report has no field that its state does not have.
canonical-coherent : (m : ExecReport) → validate_coherent m ≡ ok tt → canonical m ≡ m
unfolding canonical validate_coherent
canonical-coherent m h =
    let (price, qty, leaves, reject, cancel) =
      kept-coherent m.state m.fill_price m.fill_qty m.leaves_qty m.reject_reason m.cancel_reason
        h in
    simp (price, qty, leaves, reject, cancel) refl

module _ ⦃lay : Layout ExecReportWire⦄ where
  -- Where the packed layout reads back what it writes, a coherent report with valid fields is
  -- appended to the buffer as a payload that is read back as that report.
  pub exec_report-parse-encode_coherent :
      IsLayout FitsExecReport lay
      → (m : ExecReport) (out : List ℕ) → IsExecReport m
      → validate_coherent m ≡ ok tt
      → (payload : List ℕ) × (encode m out ≡ out ++ payload) × (parse payload ≡ ok m)
  exec_report-parse-encode_coherent law m out v h =
      let same = canonical-coherent m h in
      let (payload, written, read) =
        exec_report-parse-encode law m out v (ap validate_coherent same ∙ h) in
      (payload, written, read ∙ ap ok same)
