-- ===== src/Wire/Inbound/Frames.antt =====
-- `parse_frame` of crates/wire/src/inbound/mod.rs: a frame is decoded by its kind.
use hft_clob_core.Prelude.{ℕ, Result, ok, err, ◌>>=◌, List}
use hft_clob_core.Wire.Error.{WireError, unknown_kind}
use hft_clob_core.Wire.Framing
use hft_clob_core.Wire.Framing.{MessageKind, Frame}
use hft_clob_core.Wire.Layout.{Layout}
use hft_clob_core.Wire.Inbound.{Inbound}
use hft_clob_core.Wire.Inbound.NewOrders
use hft_clob_core.Wire.Inbound.NewOrders.{NewOrderWire}
use hft_clob_core.Wire.Inbound.CancelOrders
use hft_clob_core.Wire.Inbound.CancelOrders.{CancelOrderWire}
use hft_clob_core.Wire.Inbound.CancelReplaces
use hft_clob_core.Wire.Inbound.CancelReplaces.{CancelReplaceWire}
use hft_clob_core.Wire.Inbound.MassCancels
use hft_clob_core.Wire.Inbound.MassCancels.{MassCancelWire}
use hft_clob_core.Wire.Inbound.KillSwitches
use hft_clob_core.Wire.Inbound.KillSwitches.{KillSwitchSetWire}
use hft_clob_core.Wire.Inbound.SnapshotRequests
use hft_clob_core.Wire.Inbound.SnapshotRequests.{SnapshotRequestWire}

module _ ⦃no : Layout NewOrderWire⦄ ⦃co : Layout CancelOrderWire⦄ ⦃cr : Layout CancelReplaceWire⦄
    ⦃mc : Layout MassCancelWire⦄ ⦃ks : Layout KillSwitchSetWire⦄
    ⦃sr : Layout SnapshotRequestWire⦄ where
  unfoldable pub parse_payload : MessageKind → List ℕ → Result WireError Inbound
  parse_payload Framing.new_order payload =
      NewOrders.parse payload >>= λ m. ok (Inbound.new_order m)
  parse_payload Framing.cancel_order payload =
      CancelOrders.parse payload >>= λ m. ok (Inbound.cancel_order m)
  parse_payload Framing.cancel_replace payload =
      CancelReplaces.parse payload >>= λ m. ok (Inbound.cancel_replace m)
  parse_payload Framing.mass_cancel payload =
      MassCancels.parse payload >>= λ m. ok (Inbound.mass_cancel m)
  parse_payload Framing.kill_switch_set payload =
      KillSwitches.parse payload >>= λ m. ok (Inbound.kill_switch_set m)
  parse_payload Framing.snapshot_request payload =
      SnapshotRequests.parse payload >>= λ m. ok (Inbound.snapshot_request m)
  parse_payload Framing.exec_report payload = err (unknown_kind (Framing.as_u8 Framing.exec_report))
  parse_payload Framing.trade_print payload = err (unknown_kind (Framing.as_u8 Framing.trade_print))
  parse_payload Framing.book_update_top payload =
      err (unknown_kind (Framing.as_u8 Framing.book_update_top))
  parse_payload Framing.book_update_l2_delta payload =
      err (unknown_kind (Framing.as_u8 Framing.book_update_l2_delta))
  parse_payload Framing.snapshot_response payload =
      err (unknown_kind (Framing.as_u8 Framing.snapshot_response))

  unfoldable pub parse_frame : Frame → Result WireError Inbound
  parse_frame frame = parse_payload frame.kind frame.payload
