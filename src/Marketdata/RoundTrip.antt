-- ===== src/Marketdata/RoundTrip.antt =====
-- What crates/marketdata/src/encoder.rs decodes of what it encodes.
use hft_clob_core.Prelude.{ℕ, ◌+◌, ◌<◌, ◌≡◌, refl, ok, some, List, [], ◌++◌, length, arith}
use hft_clob_core.Wire.Framing
use hft_clob_core.Wire.Framing.{MessageKind, to_le_bytes}
use hft_clob_core.Wire.Framing.RoundTrip.{frame_bytes, parse-write}
use hft_clob_core.Wire.Layout.{Layout, IsLayout}
use hft_clob_core.Wire.Outbound.{
  Outbound, exec_report, trade_print, book_update_top, book_update_l2_delta, snapshot_response,
}
use hft_clob_core.Wire.Outbound.ExecReports
use hft_clob_core.Wire.Outbound.ExecReports.{ExecReportWire, validate_coherent}
use hft_clob_core.Wire.Outbound.ExecReports.Fields.{FitsExecReport, IsExecReport}
use hft_clob_core.Wire.Outbound.ExecReports.RoundTrip.{exec_report-parse-encode_coherent}
use hft_clob_core.Wire.Outbound.TradePrints
use hft_clob_core.Wire.Outbound.TradePrints.{
  TradePrintWire, FitsTradePrint, IsTradePrint, trade_print-parse-encode,
}
use hft_clob_core.Wire.Outbound.BookTops
use hft_clob_core.Wire.Outbound.BookTops.{
  BookUpdateTopWire, FitsBookUpdateTop, IsBookUpdateTop, book_update_top-parse-encode,
}
use hft_clob_core.Wire.Outbound.LevelDeltas
use hft_clob_core.Wire.Outbound.LevelDeltas.{
  BookUpdateL2DeltaWire, FitsL2Delta, IsL2Delta, l2_delta-parse-encode,
}
use hft_clob_core.Wire.Outbound.Snapshots.{encoded_len}
use hft_clob_core.Wire.Outbound.Snapshots.RoundTrip.{IsSnapshotResponse, snapshot-parse-encode}
use hft_clob_core.Wire.Outbound.Frames.{parse_payload, parse_frame}
use hft_clob_core.Marketdata.{kind_and_payload, encode, decode}

-- The packed structs are read back and are shorter than a frame can be.
abbrev IsPacked : {W : Type 0} → (W → Type 0) → Layout W → Type 0
IsPacked {W = W} Fits lay = IsLayout Fits lay × ((w : W) → length (lay.as_bytes w) < 0xffff_ffff)

-- The layouts of the four messages of a fixed size.
pub record ArePacked (er : Layout ExecReportWire) (tp : Layout TradePrintWire)
    (bt : Layout BookUpdateTopWire) (ld : Layout BookUpdateL2DeltaWire) : Type 0 where
  pub exec_report : IsPacked FitsExecReport er
  pub trade_print : IsPacked FitsTradePrint tp
  pub book_update_top : IsPacked FitsBookUpdateTop bt
  pub book_update_l2_delta : IsPacked FitsL2Delta ld

-- The messages with valid fields.
abbrev pub IsOutbound : Outbound → Type 0
IsOutbound (exec_report m) = IsExecReport m × (validate_coherent m ≡ ok tt)
IsOutbound (trade_print m) = IsTradePrint m
IsOutbound (book_update_top m) = IsBookUpdateTop m
IsOutbound (book_update_l2_delta m) = IsL2Delta m
IsOutbound (snapshot_response m) = IsSnapshotResponse m × (encoded_len m < 0xffff_ffff)

length-frame_bytes :
    (kind : MessageKind) (payload : List ℕ)
    → 4 + (1 + length payload) ≡ length (frame_bytes kind payload)
unfolding to_le_bytes
length-frame_bytes kind payload = omega arith

module _ ⦃er : Layout ExecReportWire⦄ ⦃tp : Layout TradePrintWire⦄ ⦃bt : Layout BookUpdateTopWire⦄
    ⦃ld : Layout BookUpdateL2DeltaWire⦄ where
  -- The frame that `encode` appends is what `decode` reads.
  abbrev IsFramed : Outbound → List ℕ → List ℕ → Type 0
  IsFramed m out rest =
      (whole : List ℕ) × (encode m out ≡ some (ok (out ++ whole)))
      × (decode (whole ++ rest) ≡ ok (m, length whole))

  frame-IsFramed :
      (m : Outbound) (kind : MessageKind) (payload out rest : List ℕ)
      → kind_and_payload m ≡ some (kind, payload)
      → length payload < 0xffff_ffff
      → parse_payload kind payload ≡ ok m
      → IsFramed m out rest
  unfolding encode decode parse_frame
  frame-IsFramed m kind payload out rest framed short read =
      let (written, parsed, _) = parse-write kind payload out rest short in
      (
        frame_bytes kind payload,
        rw (encode, framed, written) refl,
        rw (parsed, read, length-frame_bytes kind payload) refl,
      )

  -- Where the packed layouts read back what they write and are shorter than a frame can be, encode
  -- appends to the buffer, for a message of any kind with valid fields, coherent if it is an
  -- execution report and shorter than a frame can be if it is a snapshot, a frame that decode reads
  -- back, whatever follows it, as that message and the length of the frame.
  pub decode-encode :
      ArePacked er tp bt ld
      → (m : Outbound) (out rest : List ℕ) → IsOutbound m
      → (whole : List ℕ) × (encode m out ≡ some (ok (out ++ whole)))
        × (decode (whole ++ rest) ≡ ok (m, length whole))
  unfolding kind_and_payload parse_payload ExecReports.encode TradePrints.encode BookTops.encode
      LevelDeltas.encode
  decode-encode law (exec_report m) out rest (v, h) =
      let (payload, same, read) = exec_report-parse-encode_coherent law.exec_report.0 m [] v h in
      frame-IsFramed (exec_report m) Framing.exec_report (ExecReports.encode m []) out rest refl
        (law.exec_report.1 (ExecReports.to_wire m)) (rw (same, read) refl)
  decode-encode law (trade_print m) out rest v =
      let (payload, same, read) = trade_print-parse-encode law.trade_print.0 m [] v in
      frame-IsFramed (trade_print m) Framing.trade_print (TradePrints.encode m []) out rest refl
        (law.trade_print.1 (TradePrints.to_wire m)) (rw (same, read) refl)
  decode-encode law (book_update_top m) out rest v =
      let (payload, same, read) = book_update_top-parse-encode law.book_update_top.0 m [] v in
      frame-IsFramed (book_update_top m) Framing.book_update_top (BookTops.encode m []) out rest
        refl (law.book_update_top.1 (BookTops.to_wire m)) (rw (same, read) refl)
  decode-encode law (book_update_l2_delta m) out rest v =
      let (payload, same, read) = l2_delta-parse-encode law.book_update_l2_delta.0 m [] v in
      frame-IsFramed (book_update_l2_delta m) Framing.book_update_l2_delta (LevelDeltas.encode m [])
        out rest refl (law.book_update_l2_delta.1 (LevelDeltas.to_wire m)) (rw (same, read) refl)
  decode-encode law (snapshot_response m) out rest (v, h) =
      let (payload, written, sized, read) = snapshot-parse-encode m [] v in
      frame-IsFramed (snapshot_response m) Framing.snapshot_response payload out rest
        (rw (kind_and_payload, written) refl) (omega (arith, sized, h)) (rw read refl)
