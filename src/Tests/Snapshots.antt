-- ===== src/Tests/Snapshots.antt =====
-- The theorem on snapshot payloads at a concrete input.
use hft_clob_core.Prelude.{ℕ, ◌≡◌, List, [], ◌∷◌, ◌++◌, some, ok, length, arith}
use hft_clob_core.Prelude.Int.{pos}
use hft_clob_core.Wire.Outbound.{SnapshotResponse}
use hft_clob_core.Wire.Outbound.Snapshots.{encoded_len, encode, parse}
use hft_clob_core.Wire.Outbound.Snapshots.RoundTrip.{IsSnapshotResponse, snapshot-parse-encode}

-- Two bids and an offer.
abbrev snapshot : SnapshotResponse
snapshot = record {
  engine_seq = 12;
  request_id = 77;
  recv_ts = pos 1_700_000_000;
  emit_ts = pos 1_700_000_001;
  bids = record { price = 99; qty = 4 } ∷ record { price = 98; qty = 300 } ∷ [];
  asks = record { price = 101; qty = 7 } ∷ [];
}

snapshot-IsSnapshotResponse : IsSnapshotResponse snapshot
snapshot-IsSnapshotResponse = record {
  engine_seq = omega arith;
  request_id = omega arith;
  recv_ts = omega arith;
  emit_ts = omega arith;
  bids = (
    ((omega arith, omega arith), (omega arith, omega arith)),
    (((omega arith, omega arith), (omega arith, omega arith)), tt),
  );
  asks = (((omega arith, omega arith), (omega arith, omega arith)), tt);
  bid_count = omega arith;
  ask_count = omega arith;
}

snapshot-parse-encode_example :
    (payload : List ℕ) × (encode snapshot (1 ∷ []) ≡ some ((1 ∷ []) ++ payload))
    × (length payload ≡ encoded_len snapshot)
    × (parse payload ≡ ok snapshot)
snapshot-parse-encode_example = snapshot-parse-encode snapshot (1 ∷ []) snapshot-IsSnapshotResponse
