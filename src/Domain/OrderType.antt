-- ===== src/Domain/OrderType.antt =====
-- Order type, crates/domain/src/types/order_type.rs: the discriminants and their checked decoding.
use hft_clob_core.Prelude.{ℕ, refl, Result, ok, err, ◌==◌, if◌then◌else◌, arith}
use hft_clob_core.Domain.Code.{IsCode}

pub data OrderType : Type 0 where
  limit market : OrderType

pub data OrderTypeError : Type 0 where
  unknown : ℕ → OrderTypeError

unfoldable pub as_u8 : OrderType → ℕ
as_u8 limit = 1
as_u8 market = 2

unfoldable pub try_from : ℕ → Result OrderTypeError OrderType
try_from v = if v == 1 then ok limit else if v == 2 then ok market else err (unknown v)

-- Each OrderType is read back from its byte, and no other byte is read.
pub OrderType-IsCode : IsCode as_u8 try_from
unfolding as_u8 try_from
OrderType-IsCode = record {
  decode-encode = elim [ limit ↦ refl | market ↦ refl ];
  encode_of_decode = λ v a h. ground arith;
  is_byte = elim [ limit ↦ omega arith | market ↦ omega arith ];
}
