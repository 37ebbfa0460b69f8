-- ===== src/Wire/Outbound/Frames.antt =====
-- `parse_frame` of crates/wire/src/outbound/mod.rs: a frame is decoded by its kind.
use hft_clob_core.Prelude.{ℕ, Result, ok, err, ◌>>=◌, List}
use hft_clob_core.Wire.Error.{WireError, unknown_kind}
use hft_clob_core.Wire.Framing
use hft_clob_core.Wire.Framing.{MessageKind, Frame}
use hft_clob_core.Wire.Layout.{Layout}
use hft_clob_core.Wire.Outbound.{Outbound}
use hft_clob_core.Wire.Outbound.ExecReports
use hft_clob_core.Wire.Outbound.ExecReports.{ExecReportWire}
use hft_clob_core.Wire.Outbound.TradePrints
use hft_clob_core.Wire.Outbound.TradePrints.{TradePrintWire}
use hft_clob_core.Wire.Outbound.BookTops
use hft_clob_core.Wire.Outbound.BookTops.{BookUpdateTopWire}
use hft_clob_core.Wire.Outbound.LevelDeltas
use hft_clob_core.Wire.Outbound.LevelDeltas.{BookUpdateL2DeltaWire}
use hft_clob_core.Wire.Outbound.Snapshots

module _ ⦃er : Layout ExecReportWire⦄ ⦃tp : Layout TradePrintWire⦄ ⦃bt : Layout BookUpdateTopWire⦄
    ⦃ld : Layout BookUpdateL2DeltaWire⦄ where
  unfoldable pub parse_payload : MessageKind → List ℕ → Result WireError Outbound
  parse_payload Framing.exec_report payload =
      ExecReports.parse payload >>= λ m. ok (Outbound.exec_report m)
  parse_payload Framing.trade_print payload =
      TradePrints.parse payload >>= λ m. ok (Outbound.trade_print m)
  parse_payload Framing.book_update_top payload =
      BookTops.parse payload >>= λ m. ok (Outbound.book_update_top m)
  parse_payload Framing.book_update_l2_delta payload =
      LevelDeltas.parse payload >>= λ m. ok (Outbound.book_update_l2_delta m)
  parse_payload Framing.snapshot_response payload =
      Snapshots.parse payload >>= λ m. ok (Outbound.snapshot_response m)
  parse_payload Framing.new_order payload = err (unknown_kind (Framing.as_u8 Framing.new_order))
  parse_payload Framing.cancel_order payload =
      err (unknown_kind (Framing.as_u8 Framing.cancel_order))
  parse_payload Framing.cancel_replace payload =
      err (unknown_kind (Framing.as_u8 Framing.cancel_replace))
  parse_payload Framing.mass_cancel payload = err (unknown_kind (Framing.as_u8 Framing.mass_cancel))
  parse_payload Framing.kill_switch_set payload =
      err (unknown_kind (Framing.as_u8 Framing.kill_switch_set))
  parse_payload Framing.snapshot_request payload =
      err (unknown_kind (Framing.as_u8 Framing.snapshot_request))

  unfoldable pub parse_frame : Frame → Result WireError Outbound
  parse_frame frame = parse_payload frame.kind frame.payload
