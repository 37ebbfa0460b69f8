-- ===== src/Domain/ExecState.antt =====
-- State of an execution report, crates/domain/src/types/exec_state.rs: the discriminants and their checked decoding.
use hft_clob_core.Prelude.{ℕ, refl, Result, ok, err, ◌==◌, if◌then◌else◌, arith}
use hft_clob_core.Domain.Code.{IsCode}

pub data ExecState : Type 0 where
  accepted rejected partially_filled filled cancelled replaced : ExecState

pub data ExecStateError : Type 0 where
  unknown : ℕ → ExecStateError

unfoldable pub as_u8 : ExecState → ℕ
as_u8 accepted = 1
as_u8 rejected = 2
as_u8 partially_filled = 3
as_u8 filled = 4
as_u8 cancelled = 5
as_u8 replaced = 6

unfoldable pub try_from : ℕ → Result ExecStateError ExecState
try_from v =
    if v == 1
    then ok accepted
    else if v == 2
    then ok rejected
    else if v == 3
    then ok partially_filled
    else if v == 4
    then ok filled
    else if v == 5
    then ok cancelled
    else if v == 6
    then ok replaced
    else err (unknown v)

-- Each ExecState is read back from its byte, and no other byte is read.
pub ExecState-IsCode : IsCode as_u8 try_from
unfolding as_u8 try_from
ExecState-IsCode = record {
  decode-encode = elim [
    | accepted ↦ refl
    | rejected ↦ refl
    | partially_filled ↦ refl
    | filled ↦ refl
    | cancelled ↦ refl
    | replaced ↦ refl
  ];
  encode_of_decode = λ v a h. ground arith;
  is_byte = elim [
    | accepted ↦ omega arith
    | rejected ↦ omega arith
    | partially_filled ↦ omega arith
    | filled ↦ omega arith
    | cancelled ↦ omega arith
    | replaced ↦ omega arith
  ];
}
