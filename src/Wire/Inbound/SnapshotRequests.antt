-- ===== src/Wire/Inbound/SnapshotRequests.antt =====
-- crates/wire/src/inbound/snapshot_request.rs: decoding and encoding of a snapshot request.
use hft_clob_core.Prelude.{
  ℕ, ◌^◌, ◌<◌, ◌≡◌, refl, Result, ok, ◌>>=◌, ◌>>◌, ok_or, List, ◌++◌, length,
}
use hft_clob_core.Wire.Error.{WireError, payload_size}
use hft_clob_core.Wire.Layout.{Layout, IsLayout}
use hft_clob_core.Wire.Padding.{check_pad, IsPad, zeroes, check_pad-zeroes, zeroes-IsPad}
use hft_clob_core.Wire.Inbound.{SnapshotRequest}

pub record SnapshotRequestWire : Type 0 where
  pub request_id : ℕ
  pub pad0 : List ℕ

-- The widths of the fields.
pub record FitsSnapshotRequest (w : SnapshotRequestWire) : Type 0 where
  pub request_id : w.request_id < 2 ^ 64
  pub pad0 : IsPad 8 w.pad0

unfoldable pub validate : SnapshotRequestWire → Result WireError SnapshotRequest
validate w = check_pad 8 w.pad0 >> ok (record { request_id = w.request_id })

unfoldable pub to_wire : SnapshotRequest → SnapshotRequestWire
to_wire m = record { request_id = m.request_id; pad0 = zeroes 8 }

pub record IsSnapshotRequest (m : SnapshotRequest) : Type 0 where
  pub request_id : m.request_id < 2 ^ 64

validate-to_wire : (m : SnapshotRequest) → IsSnapshotRequest m → validate (to_wire m) ≡ ok m
unfolding validate to_wire
validate-to_wire m v = rw (check_pad-zeroes 8 8) refl

to_wire-FitsSnapshotRequest :
    (m : SnapshotRequest) → IsSnapshotRequest m → FitsSnapshotRequest (to_wire m)
unfolding to_wire
to_wire-FitsSnapshotRequest m v = record { request_id = v.request_id; pad0 = zeroes-IsPad 8 }

module _ ⦃lay : Layout SnapshotRequestWire⦄ where
  unfoldable pub parse : List ℕ → Result WireError SnapshotRequest
  parse payload = ok_or (lay.ref_from_bytes payload) (payload_size 16 (length payload)) >>= validate

  unfoldable pub encode : SnapshotRequest → List ℕ → List ℕ
  encode m out = out ++ lay.as_bytes (to_wire m)

  -- Where the packed layout reads back what it writes, a snapshot request with valid fields is appended to
  -- the buffer as a payload that is read back as the same message.
  pub snapshot_request-parse-encode :
      IsLayout FitsSnapshotRequest lay
      → (m : SnapshotRequest) (out : List ℕ) → IsSnapshotRequest m
      → (payload : List ℕ) × (encode m out ≡ out ++ payload) × (parse payload ≡ ok m)
  unfolding encode parse
  snapshot_request-parse-encode law m out v = (
    lay.as_bytes (to_wire m),
    refl,
    rw (law.ref_from_bytes-as_bytes (to_wire m) (to_wire-FitsSnapshotRequest m v))
        (validate-to_wire m v),
  )
