-- ===== src/Wire/Error.antt =====
-- crates/wire/src/error.rs, without the texts that two of the errors carry for display.
use hft_clob_core.Prelude.{ℕ}
use hft_clob_core.Domain.Error.{DomainError}

pub data WireError : Type 0 where
  truncated inconsistent_payload : WireError
  unknown_kind non_zero_pad invalid_enum_value payload_too_large : ℕ → WireError
  payload_size : ℕ → ℕ → WireError
  domain : DomainError → WireError
