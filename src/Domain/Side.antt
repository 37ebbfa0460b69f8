-- ===== src/Domain/Side.antt =====
-- Order side, crates/domain/src/types/side.rs: the discriminants and their checked decoding.
use hft_clob_core.Prelude.{ℕ, refl, Result, ok, err, ◌==◌, if◌then◌else◌, arith}
use hft_clob_core.Domain.Code.{IsCode}

pub data Side : Type 0 where
  bid ask : Side

pub data SideError : Type 0 where
  unknown : ℕ → SideError

unfoldable pub as_u8 : Side → ℕ
as_u8 bid = 1
as_u8 ask = 2

unfoldable pub opposite : Side → Side
opposite bid = ask
opposite ask = bid

unfoldable pub try_from : ℕ → Result SideError Side
try_from v = if v == 1 then ok bid else if v == 2 then ok ask else err (unknown v)

-- Each Side is read back from its byte, and no other byte is read.
pub Side-IsCode : IsCode as_u8 try_from
unfolding as_u8 try_from
Side-IsCode = record {
  decode-encode = elim [ bid ↦ refl | ask ↦ refl ];
  encode_of_decode = λ v a h. ground arith;
  is_byte = elim [ bid ↦ omega arith | ask ↦ omega arith ];
}
