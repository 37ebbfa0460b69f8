-- ===== src/Wire/Layout.antt =====
-- The zerocopy crate, which reads and writes the packed wire structs of crates/wire/src.
use hft_clob_core.Prelude.{ℕ, ◌≡◌, List, Option, some}

-- `ref_from_bytes`, which fails on a wrong size only, and `as_bytes`.
pub record Layout (W : Type 0) : Type 0 where
  pub ref_from_bytes : List ℕ → Option W
  pub as_bytes : W → List ℕ

-- A struct whose fields fit their widths is read back from its bytes.
pub record IsLayout {W : Type 0} (Fits : W → Type 0) (lay : Layout W) : Type 0 where
  pub ref_from_bytes-as_bytes : (w : W) → Fits w → lay.ref_from_bytes (lay.as_bytes w) ≡ some w
