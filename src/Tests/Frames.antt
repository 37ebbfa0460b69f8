-- ===== src/Tests/Frames.antt =====
-- The theorems on frames at concrete inputs.
use hft_clob_core.Prelude.{◌≡◌, refl, false, ◌==◌, [], ◌∷◌, ◌++◌, ok, drop, arith}
use hft_clob_core.Wire.Framing
use hft_clob_core.Wire.Framing.{
  MessageKind, cancel_order, to_le_bytes, as_u8, parse, parse_or_skip, write, unrecognised,
  new_order, cancel_replace, mass_cancel, kill_switch_set, snapshot_request, exec_report,
  trade_print, book_update_top, book_update_l2_delta, snapshot_response,
}
use hft_clob_core.Wire.Framing.RoundTrip.{frame_bytes, parse-write, parse_or_skip_unknown}

parse-write_example :
    let whole = frame_bytes cancel_order (7 ∷ 8 ∷ 9 ∷ []) in
    (write cancel_order (7 ∷ 8 ∷ 9 ∷ []) (5 ∷ []) ≡ ok ((5 ∷ []) ++ whole))
    × (parse (whole ++ 1 ∷ 2 ∷ [])
        ≡ ok (record { kind = cancel_order; payload = 7 ∷ 8 ∷ 9 ∷ [] }, 8))
    × (drop 8 (whole ++ 1 ∷ 2 ∷ []) ≡ 1 ∷ 2 ∷ [])
parse-write_example = parse-write cancel_order (7 ∷ 8 ∷ 9 ∷ []) (5 ∷ []) (1 ∷ 2 ∷ []) (omega arith)

not_seven : (kind : MessageKind) → (as_u8 kind == 7) ≡ false
unfolding Framing.as_u8
not_seven = elim [
  | new_order ↦ refl
  | cancel_order ↦ refl
  | cancel_replace ↦ refl
  | mass_cancel ↦ refl
  | kill_switch_set ↦ refl
  | snapshot_request ↦ refl
  | exec_report ↦ refl
  | trade_print ↦ refl
  | book_update_top ↦ refl
  | book_update_l2_delta ↦ refl
  | snapshot_response ↦ refl
]

parse_or_skip_unknown_example :
    parse_or_skip (to_le_bytes 3 ++ 7 ∷ (1 ∷ 2 ∷ []) ++ 4 ∷ []) ≡ ok (unrecognised 7, 7)
parse_or_skip_unknown_example =
    parse_or_skip_unknown 7 (1 ∷ 2 ∷ []) (4 ∷ []) (omega arith) not_seven
