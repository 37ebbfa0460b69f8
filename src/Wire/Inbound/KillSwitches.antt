-- ===== src/Wire/Inbound/KillSwitches.antt =====
-- crates/wire/src/inbound/kill_switch.rs: decoding and encoding of a kill switch command.
use hft_clob_core.Prelude.{
  ℕ, ◌^◌, ◌<◌, ◌≡◌, refl, Result, ok, err, ◌>>=◌, ◌>>◌, ok_or, List, ◌++◌, ◌==◌, length,
  if◌then◌else◌, arith,
}
use hft_clob_core.Prelude.Int.{IsI64, as_u64, as_i64, as_u64-lt, as_i64-as_u64}
use hft_clob_core.Domain.Code.{IsCode}
use hft_clob_core.Wire.Error.{WireError, invalid_enum_value, payload_size}
use hft_clob_core.Wire.Layout.{Layout, IsLayout}
use hft_clob_core.Wire.Padding.{check_pad, IsPad, zeroes, check_pad-zeroes, zeroes-IsPad}
use hft_clob_core.Wire.Inbound.{KillSwitchSet, KillSwitchState, halt, resume}

pub record KillSwitchSetWire : Type 0 where
  pub client_ts : ℕ
  pub admin_token : ℕ
  pub state : ℕ
  pub pad0 : List ℕ

-- The widths of the fields.
pub record FitsKillSwitchSet (w : KillSwitchSetWire) : Type 0 where
  pub client_ts : w.client_ts < 2 ^ 64
  pub admin_token : w.admin_token < 2 ^ 64
  pub state : w.state < 256
  pub pad0 : IsPad 7 w.pad0

unfoldable pub as_u8 : KillSwitchState → ℕ
as_u8 resume = 0
as_u8 halt = 1

unfoldable pub try_from : ℕ → Result WireError KillSwitchState
try_from v = if v == 0 then ok resume else if v == 1 then ok halt else err (invalid_enum_value v)

-- Each state is read back from its byte, and no other byte is read.
pub KillSwitchState-IsCode : IsCode as_u8 try_from
unfolding as_u8 try_from
KillSwitchState-IsCode = record {
  decode-encode = elim [ halt ↦ refl | resume ↦ refl ];
  encode_of_decode = λ v a h. ground arith;
  is_byte = elim [ halt ↦ omega arith | resume ↦ omega arith ];
}

unfoldable pub validate : KillSwitchSetWire → Result WireError KillSwitchSet
validate w =
    check_pad 17 w.pad0
    >> (try_from w.state >>= λ state.
        ok (record { client_ts = as_i64 w.client_ts; admin_token = w.admin_token; state = state }))

unfoldable pub to_wire : KillSwitchSet → KillSwitchSetWire
to_wire m = record {
  client_ts = as_u64 m.client_ts;
  admin_token = m.admin_token;
  state = as_u8 m.state;
  pad0 = zeroes 7;
}

pub record IsKillSwitchSet (m : KillSwitchSet) : Type 0 where
  pub client_ts : IsI64 m.client_ts
  pub admin_token : m.admin_token < 2 ^ 64

validate-to_wire : (m : KillSwitchSet) → IsKillSwitchSet m → validate (to_wire m) ≡ ok m
unfolding validate to_wire
validate-to_wire m v =
    rw
      (
        check_pad-zeroes 7 17,
        KillSwitchState-IsCode.decode-encode m.state,
        as_i64-as_u64 m.client_ts v.client_ts,
      )
      refl

to_wire-FitsKillSwitchSet : (m : KillSwitchSet) → IsKillSwitchSet m → FitsKillSwitchSet (to_wire m)
unfolding to_wire
to_wire-FitsKillSwitchSet m v = record {
  client_ts = as_u64-lt m.client_ts v.client_ts;
  admin_token = v.admin_token;
  state = KillSwitchState-IsCode.is_byte m.state;
  pad0 = zeroes-IsPad 7;
}

module _ ⦃lay : Layout KillSwitchSetWire⦄ where
  unfoldable pub parse : List ℕ → Result WireError KillSwitchSet
  parse payload = ok_or (lay.ref_from_bytes payload) (payload_size 24 (length payload)) >>= validate

  unfoldable pub encode : KillSwitchSet → List ℕ → List ℕ
  encode m out = out ++ lay.as_bytes (to_wire m)

  -- Where the packed layout reads back what it writes, a kill switch command with valid fields is appended to
  -- the buffer as a payload that is read back as the same message.
  pub kill_switch-parse-encode :
      IsLayout FitsKillSwitchSet lay
      → (m : KillSwitchSet) (out : List ℕ) → IsKillSwitchSet m
      → (payload : List ℕ) × (encode m out ≡ out ++ payload) × (parse payload ≡ ok m)
  unfolding encode parse
  kill_switch-parse-encode law m out v = (
    lay.as_bytes (to_wire m),
    refl,
    rw (law.ref_from_bytes-as_bytes (to_wire m) (to_wire-FitsKillSwitchSet m v))
        (validate-to_wire m v),
  )
