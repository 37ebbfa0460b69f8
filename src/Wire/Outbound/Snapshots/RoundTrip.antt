-- ===== src/Wire/Outbound/Snapshots/RoundTrip.antt =====
-- What crates/wire/src/outbound/snapshot_response.rs reads back of what it writes.
use hft_clob_core.Prelude.{
  ℕ, ◌+◌, ◌*◌, ◌^◌, ◌≤◌, ◌<◌, ◌≡◌, refl, sym, ap, true, le→leb, ==_refl, ok, some, All, List, [],
  ◌∷◌, ◌++◌, append_assoc, append-nil, length, leb, arith,
}
use hft_clob_core.Prelude.Int.{pos, IsI64, as_u64, as_i64, as_u64-lt, as_i64-as_u64}
use hft_clob_core.Domain.Consts.{u32_max}
use hft_clob_core.Domain.Price
use hft_clob_core.Domain.Price.{IsPrice}
use hft_clob_core.Domain.Qty
use hft_clob_core.Domain.Qty.{IsQty}
use hft_clob_core.Wire.Bytes.{le_bytes, from_le-le_bytes, drop-le_bytes, length-le_bytes}
use hft_clob_core.Wire.Outbound.{SnapshotLevel, SnapshotResponse}
use hft_clob_core.Wire.Outbound.Snapshots.{
  encoded_len, write_levels, payload_of, encode, read_levels, read_sides, parse,
}

abbrev pub IsLevel : SnapshotLevel → Type 0
IsLevel level = IsPrice level.price × IsQty level.qty

pub record IsSnapshotResponse (m : SnapshotResponse) : Type 0 where
  pub engine_seq : m.engine_seq < 2 ^ 64
  pub request_id : m.request_id < 2 ^ 64
  pub recv_ts : IsI64 m.recv_ts
  pub emit_ts : IsI64 m.emit_ts
  pub bids : All IsLevel m.bids
  pub asks : All IsLevel m.asks
  pub bid_count : length m.bids ≤ 0xffff_ffff
  pub ask_count : length m.asks ≤ 0xffff_ffff

length-write_levels :
    (levels : List SnapshotLevel) (rest : List ℕ)
    → length (write_levels levels ++ rest) ≡ 16 * length levels + length rest
unfolding write_levels
length-write_levels [] rest = omega arith
length-write_levels (level ∷ levels) rest =
    let shorter = length-write_levels levels rest in
    rw
      (
        append_assoc (le_bytes 8 (as_u64 (pos level.price)))
            (le_bytes 8 level.qty ++ write_levels levels) rest,
        append_assoc (le_bytes 8 level.qty) (write_levels levels) rest,
        length-le_bytes 8 (as_u64 (pos level.price))
            (le_bytes 8 level.qty ++ (write_levels levels ++ rest)),
        length-le_bytes 8 level.qty (write_levels levels ++ rest),
      )
      (omega (arith, shorter))

read_levels-write_levels :
    (levels : List SnapshotLevel) (rest : List ℕ)
    → All IsLevel levels
    → read_levels (length levels) (write_levels levels ++ rest) ≡ ok (levels, rest)
unfolding read_levels write_levels
read_levels-write_levels [] rest v = refl
read_levels-write_levels (level ∷ levels) rest v =
    let price = as_u64 (pos level.price) in
    let after = write_levels levels ++ rest in
    rw
      (
        append_assoc (le_bytes 8 price) (le_bytes 8 level.qty ++ write_levels levels) rest,
        append_assoc (le_bytes 8 level.qty) (write_levels levels) rest,
        from_le-le_bytes 8 price (le_bytes 8 level.qty ++ after)
            (as_u64-lt (pos level.price) v.0.0.1),
        drop-le_bytes 8 price (le_bytes 8 level.qty ++ after),
        from_le-le_bytes 8 level.qty after v.0.1.1,
        drop-le_bytes 8 level.qty after,
        as_i64-as_u64 (pos level.price) v.0.0.1,
        Price.new_ticks level.price v.0.0,
        Qty.new_lots level.qty v.0.1.0,
        read_levels-write_levels levels rest v.1,
      )
      refl

read_sides-write_levels :
    (m header : SnapshotResponse)
    → All IsLevel m.bids
    → All IsLevel m.asks
    → read_sides header
        (length m.bids)
        (length m.asks)
        (write_levels m.bids ++ (write_levels m.asks ++ []))
      ≡ ok (record header { bids = m.bids; asks = m.asks })
unfolding read_sides
read_sides-write_levels m header b a =
    rw
      (
        read_levels-write_levels m.bids (write_levels m.asks ++ []) b,
        read_levels-write_levels m.asks [] a,
      )
      refl

-- The header of a payload that has the length it declares.
parse_header :
    (a b c d n k : ℕ) (tail : List ℕ)
    → a < 2 ^ 64
    → b < 2 ^ 64
    → c < 2 ^ 64
    → d < 2 ^ 64
    → n < 2 ^ 32
    → k < 2 ^ 32
    → length tail ≡ 16 * (n + k)
    → parse (
        le_bytes 8 a
        ++ (le_bytes 8 b
            ++ (le_bytes 8 c ++ (le_bytes 8 d ++ (le_bytes 4 n ++ (le_bytes 4 k ++ tail))))))
      ≡ read_sides
          (record {
            engine_seq = a;
            request_id = b;
            recv_ts = as_i64 c;
            emit_ts = as_i64 d;
            bids = [];
            asks = [];
          })
          n
          k
          tail
unfolding parse
parse_header a b c d n k tail ha hb hc hd hn hk sized =
    let enough = le→leb 40 (40 + 16 * (n + k)) (omega arith) in
    let exact = ==_refl (40 + 16 * (n + k)) in
    let whole : 8 + (8 + (8 + (8 + (4 + (4 + length tail))))) ≡ 40 + 16 * (n + k) =
      omega (arith, sized) in
    rw
      (
        length-le_bytes 8 a,
        length-le_bytes 8 b,
        length-le_bytes 8 c,
        length-le_bytes 8 d,
        length-le_bytes 4 n,
        length-le_bytes 4 k,
        drop-le_bytes 8 a,
        drop-le_bytes 8 b,
        drop-le_bytes 8 c,
        drop-le_bytes 8 d,
        drop-le_bytes 4 n,
        drop-le_bytes 4 k,
        from_le-le_bytes 8 a _ ha,
        from_le-le_bytes 8 b _ hb,
        from_le-le_bytes 8 c _ hc,
        from_le-le_bytes 8 d _ hd,
        from_le-le_bytes 4 n _ hn,
        from_le-le_bytes 4 k _ hk,
        whole,
        enough,
        exact,
      )
      refl

-- What is written of a snapshot, with an end that `read_levels` sees.
payload_of-append_nil :
    (m : SnapshotResponse)
    → write_levels m.bids ++ write_levels m.asks
      ≡ write_levels m.bids ++ (write_levels m.asks ++ [])
payload_of-append_nil m = ap (λ bytes. write_levels m.bids ++ bytes) (sym (append-nil _))

length-write_sides :
    (m : SnapshotResponse)
    → length (write_levels m.bids ++ (write_levels m.asks ++ []))
      ≡ 16 * (length m.bids + length m.asks)
length-write_sides m =
    rw (length-write_levels m.bids (write_levels m.asks ++ []), length-write_levels m.asks [])
      (omega arith)

length-payload_of : (m : SnapshotResponse) → length (payload_of m) ≡ encoded_len m
unfolding payload_of encoded_len
length-payload_of m =
    rw
      (
        payload_of-append_nil m,
        length-le_bytes 8 m.engine_seq,
        length-le_bytes 8 m.request_id,
        length-le_bytes 8 (as_u64 m.recv_ts),
        length-le_bytes 8 (as_u64 m.emit_ts),
        length-le_bytes 4 (length m.bids),
        length-le_bytes 4 (length m.asks),
        length-write_sides m,
      )
      (omega arith)

parse-payload_of : (m : SnapshotResponse) → IsSnapshotResponse m → parse (payload_of m) ≡ ok m
unfolding payload_of
parse-payload_of m v =
    rw
      (
        payload_of-append_nil m,
        parse_header m.engine_seq m.request_id (as_u64 m.recv_ts) (as_u64 m.emit_ts) (length m.bids)
            (length m.asks) _ v.engine_seq v.request_id (as_u64-lt m.recv_ts v.recv_ts)
            (as_u64-lt m.emit_ts v.emit_ts) (omega arith) (omega arith) (length-write_sides m),
        read_sides-write_levels m _ v.bids v.asks,
        as_i64-as_u64 m.recv_ts v.recv_ts,
        as_i64-as_u64 m.emit_ts v.emit_ts,
      )
      refl

-- A snapshot with valid fields and no more levels on a side than a u32 counts is appended to the
-- buffer as `encoded_len` bytes, which are read back as that snapshot.
pub snapshot-parse-encode :
    (m : SnapshotResponse) (out : List ℕ)
    → IsSnapshotResponse m
    → (payload : List ℕ) × (encode m out ≡ some (out ++ payload))
      × (length payload ≡ encoded_len m)
      × (parse payload ≡ ok m)
unfolding encode
snapshot-parse-encode m out v =
    let bids : leb (length m.bids) u32_max ≡ true = le→leb _ _ v.bid_count in
    let asks : leb (length m.asks) u32_max ≡ true = le→leb _ _ v.ask_count in
    (payload_of m, rw (bids, asks) refl, length-payload_of m, parse-payload_of m v)
