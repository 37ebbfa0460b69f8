-- ===== src/Tests/Reports.antt =====
-- The packed little-endian layout of an execution report, and the theorem on reports at a concrete
-- input.
use hft_clob_core.Prelude.{ℕ, ◌≡◌, refl, List, [], ◌∷◌, ◌++◌, Option, none, some, ok, arith}
use hft_clob_core.Prelude.Int.{pos, as_u64, as_i64, as_u64-lt, as_i64-as_u64}
use hft_clob_core.Domain.ExecState.{partially_filled}
use hft_clob_core.Wire.Bytes.{le_bytes}
use hft_clob_core.Tests.Bytes.{read_le, read_le-le_bytes, and_then, at_end}
use hft_clob_core.Wire.Layout.{Layout, IsLayout}
use hft_clob_core.Wire.Outbound.{ExecReport}
use hft_clob_core.Wire.Outbound.ExecReports.{
  ExecReportWire, coherent, validate_coherent, parse, encode,
}
use hft_clob_core.Wire.Outbound.ExecReports.Fields.{FitsExecReport, IsExecReport}
use hft_clob_core.Wire.Outbound.ExecReports.RoundTrip.{exec_report-parse-encode_coherent}

unfoldable pub read_report : List ℕ → Option ExecReportWire
read_report bs = and_then (read_le 8 bs) λ engine_seq bs. and_then (read_le 8 bs) λ order_id bs.
    and_then (read_le 4 bs) λ account_id bs. and_then (read_le 1 bs) λ state bs.
      and_then (read_le 1 bs) λ reject_reason bs. and_then (read_le 1 bs) λ cancel_reason bs.
        and_then (read_le 1 bs) λ pad0 bs. and_then (read_le 8 bs) λ fill_price bs.
          and_then (read_le 8 bs) λ fill_qty bs. and_then (read_le 8 bs) λ leaves_qty bs.
            and_then (read_le 8 bs) λ recv_ts bs. and_then (read_le 8 bs) λ emit_ts bs.
              at_end bs (record {
                engine_seq = engine_seq;
                order_id = order_id;
                account_id = account_id;
                state = state;
                reject_reason = reject_reason;
                cancel_reason = cancel_reason;
                pad0 = pad0;
                fill_price = as_i64 fill_price;
                fill_qty = fill_qty;
                leaves_qty = leaves_qty;
                recv_ts = recv_ts;
                emit_ts = emit_ts;
              })

unfoldable pub write_report : ExecReportWire → List ℕ
write_report w =
    le_bytes 8 w.engine_seq
    ++ (le_bytes 8 w.order_id
        ++ (le_bytes 4 w.account_id
            ++ (le_bytes 1 w.state
                ++ (le_bytes 1 w.reject_reason
                    ++ (le_bytes 1 w.cancel_reason
                        ++ (le_bytes 1 w.pad0
                            ++ (le_bytes 8 (as_u64 w.fill_price)
                                ++ (le_bytes 8 w.fill_qty
                                    ++ (le_bytes 8 w.leaves_qty
                                        ++ (le_bytes 8 w.recv_ts
                                            ++ (le_bytes 8 w.emit_ts ++ [])))))))))))

instance abbrev pub packed : Layout ExecReportWire
packed = record { ref_from_bytes = read_report; as_bytes = write_report }

pub packed-IsLayout : IsLayout FitsExecReport packed
unfolding read_report write_report
packed-IsLayout = record {
  ref_from_bytes-as_bytes = λ w h.
      rw
        (
          read_le-le_bytes 8 w.engine_seq _ h.engine_seq,
          read_le-le_bytes 8 w.order_id _ h.order_id,
          read_le-le_bytes 4 w.account_id _ h.account_id,
          read_le-le_bytes 1 w.state _ h.state,
          read_le-le_bytes 1 w.reject_reason _ h.reject_reason,
          read_le-le_bytes 1 w.cancel_reason _ h.cancel_reason,
          read_le-le_bytes 1 w.pad0 _ h.pad0,
          read_le-le_bytes 8 (as_u64 w.fill_price) _ (as_u64-lt w.fill_price h.fill_price),
          read_le-le_bytes 8 w.fill_qty _ h.fill_qty,
          read_le-le_bytes 8 w.leaves_qty _ h.leaves_qty,
          read_le-le_bytes 8 w.recv_ts _ h.recv_ts,
          read_le-le_bytes 8 w.emit_ts _ h.emit_ts,
          as_i64-as_u64 w.fill_price h.fill_price,
        )
        refl;
}

abbrev report : ExecReport
report = record {
  engine_seq = 9;
  order_id = 42;
  account_id = 7;
  state = partially_filled;
  fill_price = some 100;
  fill_qty = some 3;
  leaves_qty = some 2;
  reject_reason = none;
  cancel_reason = none;
  recv_ts = pos 1_700_000_000;
  emit_ts = pos 1_700_000_001;
}

report-IsExecReport : IsExecReport report
report-IsExecReport = record {
  engine_seq = omega arith;
  order_id = (omega arith, omega arith);
  account_id = (omega arith, omega arith);
  fill_price = (omega arith, omega arith);
  fill_qty = (omega arith, omega arith);
  leaves_qty = (omega arith, omega arith);
  recv_ts = omega arith;
  emit_ts = omega arith;
}

report-validate_coherent : validate_coherent report ≡ ok tt
unfolding validate_coherent coherent
report-validate_coherent = refl

exec_report-parse-encode_coherent_example :
    (payload : List ℕ) × (encode report (1 ∷ []) ≡ (1 ∷ []) ++ payload)
    × (parse payload ≡ ok report)
exec_report-parse-encode_coherent_example =
    exec_report-parse-encode_coherent packed-IsLayout report (1 ∷ []) report-IsExecReport
      report-validate_coherent
