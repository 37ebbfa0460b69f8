-- ===== src/Wire/Outbound/Snapshots.antt =====
-- crates/wire/src/outbound/snapshot_response.rs: the one message whose length varies.
pub mod RoundTrip
use hft_clob_core.Prelude.{
  ℕ, zero, suc, ◌+◌, ◌*◌, ◌^◌, ◌≤◌, ◌<◌, ◌≡◌, refl, sym, ap, ◌&&◌, true, le→leb, ==_refl, Result,
  ok, ◌>>=◌, ◌>>◌, guard, map_err, Option, none, some, All, List, [], ◌∷◌, ◌++◌, append_assoc,
  append-nil, length, leb, ◌==◌, if◌then◌else◌, drop, arith,
}
use hft_clob_core.Prelude.Int.{pos, IsI64, as_u64, as_i64, as_u64-lt, as_i64-as_u64}
use hft_clob_core.Domain.Consts.{u32_max}
use hft_clob_core.Domain.Error
use hft_clob_core.Domain.Price
use hft_clob_core.Domain.Price.{IsPrice}
use hft_clob_core.Domain.Qty
use hft_clob_core.Domain.Qty.{IsQty}
use hft_clob_core.Wire.Error.{WireError, domain, payload_size}
use hft_clob_core.Wire.Bytes.{le_bytes, from_le, from_le-le_bytes, drop-le_bytes, length-le_bytes}
use hft_clob_core.Wire.Outbound.{SnapshotLevel, SnapshotResponse}

abbrev pub header_bytes : ℕ
header_bytes = 40

abbrev pub level_bytes : ℕ
level_bytes = 16

unfoldable pub encoded_len : SnapshotResponse → ℕ
encoded_len m = header_bytes + level_bytes * (length m.bids + length m.asks)

unfoldable pub write_levels : List SnapshotLevel → List ℕ
write_levels [] = []
write_levels (level ∷ levels) =
    le_bytes 8 (as_u64 (pos level.price)) ++ (le_bytes 8 level.qty ++ write_levels levels)

unfoldable pub payload_of : SnapshotResponse → List ℕ
payload_of m =
    le_bytes 8 m.engine_seq
    ++ (le_bytes 8 m.request_id
        ++ (le_bytes 8 (as_u64 m.recv_ts)
            ++ (le_bytes 8 (as_u64 m.emit_ts)
                ++ (le_bytes 4 (length m.bids)
                    ++ (le_bytes 4 (length m.asks)
                        ++ (write_levels m.bids ++ write_levels m.asks))))))

-- `none` is the panic of a side whose levels are not counted by a u32.
unfoldable pub encode : SnapshotResponse → List ℕ → Option (List ℕ)
encode m out =
    if leb (length m.bids) u32_max && leb (length m.asks) u32_max
    then some (out ++ payload_of m)
    else none

-- So many levels from the cursor on, and what follows them.
unfoldable pub read_levels : ℕ → List ℕ → Result WireError (List SnapshotLevel × List ℕ)
read_levels zero bytes = ok ([], bytes)
read_levels (suc n) bytes =
    let price_raw = as_i64 (from_le 8 bytes) in
    let qty_raw = from_le 8 (drop 8 bytes) in
    map_err (λ e. domain (Error.price e)) (Price.new price_raw) >>= λ price.
    map_err (λ e. domain (Error.qty e)) (Qty.new qty_raw) >>= λ qty.
    read_levels n (drop 8 (drop 8 bytes)) >>= λ read.
    ok (record { price = price; qty = qty } ∷ read.0, read.1)

-- The levels of both sides behind the header, which the length check has found to be there.
unfoldable pub read_sides : SnapshotResponse → ℕ → ℕ → List ℕ → Result WireError SnapshotResponse
read_sides header n_bid n_ask bytes = read_levels n_bid bytes >>= λ read.
    read_levels n_ask read.1 >>= λ read'. ok (record header { bids = read.0; asks = read'.0 })

unfoldable pub parse : List ℕ → Result WireError SnapshotResponse
parse payload =
    let b1 = drop 8 payload in
    let b2 = drop 8 b1 in
    let b3 = drop 8 b2 in
    let b4 = drop 8 b3 in
    let b5 = drop 4 b4 in
    let n_bid = from_le 4 b4 in
    let n_ask = from_le 4 b5 in
    let expected = header_bytes + level_bytes * (n_bid + n_ask) in
    guard (leb header_bytes (length payload)) (payload_size header_bytes (length payload))
    >> (guard (length payload == expected) (payload_size expected (length payload))
        >> read_sides
            (record {
              engine_seq = from_le 8 payload;
              request_id = from_le 8 b1;
              recv_ts = as_i64 (from_le 8 b2);
              emit_ts = as_i64 (from_le 8 b3);
              bids = [];
              asks = [];
            })
            n_bid n_ask (drop 4 b5))
