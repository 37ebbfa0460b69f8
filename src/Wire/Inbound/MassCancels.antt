-- ===== src/Wire/Inbound/MassCancels.antt =====
-- crates/wire/src/inbound/mass_cancel.rs: decoding and encoding of a mass cancel.
use hft_clob_core.Prelude.{
  ℕ, ◌^◌, ◌<◌, ◌≡◌, refl, Result, ok, ◌>>=◌, ◌>>◌, guard, ok_or, map_err, List, ◌++◌, ◌==◌, length,
  arith,
}
use hft_clob_core.Prelude.Int.{IsI64, as_u64, as_i64, as_u64-lt, as_i64-as_u64}
use hft_clob_core.Domain.Error
use hft_clob_core.Domain.AccountId
use hft_clob_core.Domain.AccountId.{IsAccountId}
use hft_clob_core.Wire.Error.{WireError, domain, non_zero_pad, payload_size}
use hft_clob_core.Wire.Layout.{Layout, IsLayout}
use hft_clob_core.Wire.Inbound.{MassCancel}

pub record MassCancelWire : Type 0 where
  pub client_ts : ℕ
  pub account_id : ℕ
  pub pad0 : ℕ

-- The widths of the fields.
pub record FitsMassCancel (w : MassCancelWire) : Type 0 where
  pub client_ts : w.client_ts < 2 ^ 64
  pub account_id : w.account_id < 2 ^ 32
  pub pad0 : w.pad0 < 2 ^ 32

unfoldable pub validate : MassCancelWire → Result WireError MassCancel
validate w =
    guard (w.pad0 == 0) (non_zero_pad 12)
    >> (map_err (λ e. domain (Error.account_id e)) (AccountId.new w.account_id) >>= λ account_id.
        ok (record { client_ts = as_i64 w.client_ts; account_id = account_id }))

unfoldable pub to_wire : MassCancel → MassCancelWire
to_wire m = record { client_ts = as_u64 m.client_ts; account_id = m.account_id; pad0 = 0 }

pub record IsMassCancel (m : MassCancel) : Type 0 where
  pub client_ts : IsI64 m.client_ts
  pub account_id : IsAccountId m.account_id

validate-to_wire : (m : MassCancel) → IsMassCancel m → validate (to_wire m) ≡ ok m
unfolding validate to_wire
validate-to_wire m v =
    rw (AccountId.new_raw m.account_id v.account_id.0, as_i64-as_u64 m.client_ts v.client_ts) refl

to_wire-FitsMassCancel : (m : MassCancel) → IsMassCancel m → FitsMassCancel (to_wire m)
unfolding to_wire
to_wire-FitsMassCancel m v = record {
  client_ts = as_u64-lt m.client_ts v.client_ts;
  account_id = v.account_id.1;
  pad0 = omega arith;
}

module _ ⦃lay : Layout MassCancelWire⦄ where
  unfoldable pub parse : List ℕ → Result WireError MassCancel
  parse payload = ok_or (lay.ref_from_bytes payload) (payload_size 16 (length payload)) >>= validate

  unfoldable pub encode : MassCancel → List ℕ → List ℕ
  encode m out = out ++ lay.as_bytes (to_wire m)

  -- Where the packed layout reads back what it writes, a mass cancel with valid fields is appended to
  -- the buffer as a payload that is read back as the same message.
  pub mass_cancel-parse-encode :
      IsLayout FitsMassCancel lay
      → (m : MassCancel) (out : List ℕ) → IsMassCancel m
      → (payload : List ℕ) × (encode m out ≡ out ++ payload) × (parse payload ≡ ok m)
  unfolding encode parse
  mass_cancel-parse-encode law m out v = (
    lay.as_bytes (to_wire m),
    refl,
    rw (law.ref_from_bytes-as_bytes (to_wire m) (to_wire-FitsMassCancel m v))
        (validate-to_wire m v),
  )
