-- ===== src/Wire/Padding.antt =====
-- The reserved bytes of the packed structs of crates/wire/src, which must be zero.
use hft_clob_core.Prelude.{
  ℕ, zero, suc, ◌+◌, ◌<◌, ◌≡◌, refl, Result, ok, err, List, [], ◌∷◌, length, All, ◌==◌,
  if◌then◌else◌, arith,
}
use hft_clob_core.Wire.Error.{WireError, non_zero_pad}

-- The first byte that is not zero is reported by its offset.
unfoldable pub check_pad : ℕ → List ℕ → Result WireError (Unit {0})
check_pad offset [] = ok tt
check_pad offset (byte ∷ rest) =
    let checked = check_pad (offset + 1) rest in
    if byte == 0 then checked else err (non_zero_pad offset)

-- So many bytes.
abbrev pub IsPad : ℕ → List ℕ → Type 0
IsPad n bytes = (length bytes ≡ n) × All (λ b. b < 256) bytes

-- `[0; n]`
unfoldable pub zeroes : ℕ → List ℕ
zeroes zero = []
zeroes (suc n) = 0 ∷ zeroes n

pub check_pad-zeroes : (n offset : ℕ) → check_pad offset (zeroes n) ≡ ok tt
unfolding check_pad zeroes
check_pad-zeroes zero offset = refl
check_pad-zeroes (suc n) offset = check_pad-zeroes n (offset + 1)

pub zeroes-IsPad : (n : ℕ) → IsPad n (zeroes n)
unfolding zeroes
zeroes-IsPad zero = (refl, tt)
zeroes-IsPad (suc n) =
    let (sized, bytes) = zeroes-IsPad n in (omega (arith, sized), (omega arith, bytes))
