-- ===== src/Domain/Tif.antt =====
-- Time in force, crates/domain/src/types/tif.rs: the discriminants and their checked decoding.
use hft_clob_core.Prelude.{ℕ, refl, Result, ok, err, ◌==◌, if◌then◌else◌, arith}
use hft_clob_core.Domain.Code.{IsCode}

pub data Tif : Type 0 where
  gtc ioc post_only : Tif

pub data TifError : Type 0 where
  unknown : ℕ → TifError

unfoldable pub as_u8 : Tif → ℕ
as_u8 gtc = 1
as_u8 ioc = 2
as_u8 post_only = 3

unfoldable pub try_from : ℕ → Result TifError Tif
try_from v =
    if v == 1
    then ok gtc
    else if v == 2
    then ok ioc
    else if v == 3
    then ok post_only
    else err (unknown v)

-- Each Tif is read back from its byte, and no other byte is read.
pub Tif-IsCode : IsCode as_u8 try_from
unfolding as_u8 try_from
Tif-IsCode = record {
  decode-encode = elim [ gtc ↦ refl | ioc ↦ refl | post_only ↦ refl ];
  encode_of_decode = λ v a h. ground arith;
  is_byte = elim [ gtc ↦ omega arith | ioc ↦ omega arith | post_only ↦ omega arith ];
}
