-- ===== src/Marketdata.antt =====
-- crates/marketdata/src/encoder.rs: messages as frames, and back.
pub mod RoundTrip
use hft_clob_core.Prelude.{ℕ, Result, ok, ◌>>=◌, Option, none, some, List, []}
use hft_clob_core.Wire.Error.{WireError}
use hft_clob_core.Wire.Framing
use hft_clob_core.Wire.Framing.{MessageKind, Frame}
use hft_clob_core.Wire.Layout.{Layout}
use hft_clob_core.Wire.Outbound.{
  Outbound, exec_report, trade_print, book_update_top, book_update_l2_delta, snapshot_response,
}
use hft_clob_core.Wire.Outbound.ExecReports
use hft_clob_core.Wire.Outbound.ExecReports.{ExecReportWire}
use hft_clob_core.Wire.Outbound.TradePrints
use hft_clob_core.Wire.Outbound.TradePrints.{TradePrintWire}
use hft_clob_core.Wire.Outbound.BookTops
use hft_clob_core.Wire.Outbound.BookTops.{BookUpdateTopWire}
use hft_clob_core.Wire.Outbound.LevelDeltas
use hft_clob_core.Wire.Outbound.LevelDeltas.{BookUpdateL2DeltaWire}
use hft_clob_core.Wire.Outbound.Snapshots
use hft_clob_core.Wire.Outbound.Frames.{parse_frame}

module _ ⦃er : Layout ExecReportWire⦄ ⦃tp : Layout TradePrintWire⦄ ⦃bt : Layout BookUpdateTopWire⦄
    ⦃ld : Layout BookUpdateL2DeltaWire⦄ where
  -- The kind of a message and its payload; `none` is the panic of a snapshot that is too large.
  unfoldable pub kind_and_payload : Outbound → Option (MessageKind × List ℕ)
  kind_and_payload (exec_report m) = some (Framing.exec_report, ExecReports.encode m [])
  kind_and_payload (trade_print m) = some (Framing.trade_print, TradePrints.encode m [])
  kind_and_payload (book_update_top m) = some (Framing.book_update_top, BookTops.encode m [])
  kind_and_payload (book_update_l2_delta m) =
      some (Framing.book_update_l2_delta, LevelDeltas.encode m [])
  kind_and_payload (snapshot_response m) = elim (Snapshots.encode m []) [
    | none ↦ none
    | some payload ↦ some (Framing.snapshot_response, payload)
  ]

  unfoldable pub encode : Outbound → List ℕ → Option (Result WireError (List ℕ))
  encode m out = elim (kind_and_payload m) [
    | none ↦ none
    | some (kind, payload) ↦ some (Framing.write kind payload out)
  ]

  unfoldable pub decode : List ℕ → Result WireError (Outbound × ℕ)
  decode buf = Framing.parse buf >>= λ (frame, total). parse_frame frame >>= λ m. ok (m, total)
