-- ===== src/Domain/Code.antt =====
-- What the numeric discriminants of crates/domain/src/types promise: a byte for each value, read
-- back by the checked decoder, which accepts nothing else.
use hft_clob_core.Prelude.{ℕ, ◌<◌, ◌≡◌, Result, ok}

pub record IsCode {A E : Type 0} (as_u8 : A → ℕ) (try_from : ℕ → Result E A) : Type 0 where
  pub decode-encode : (a : A) → try_from (as_u8 a) ≡ ok a
  pub encode_of_decode : (v : ℕ) (a : A) → try_from v ≡ ok a → as_u8 a ≡ v
  pub is_byte : (a : A) → as_u8 a < 256
