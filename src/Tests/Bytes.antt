-- ===== src/Tests/Bytes.antt =====
-- Little-endian numbers, from which the packed layouts of the tests are made.
use hft_clob_core.Prelude.{
  ℕ, zero, suc, ◌+◌, ◌*◌, ◌/◌, ◌%◌, ◌<◌, ◌≡◌, refl, ap, List, [], ◌∷◌, ◌++◌, Option, none, some,
  arith,
}
use hft_clob_core.Wire.Bytes.{size, le_bytes}

abbrev pub shifted : ℕ → Option (ℕ × List ℕ) → Option (ℕ × List ℕ)
shifted b none = none
shifted b (some (n, rest)) = some (b + 256 * n, rest)

unfoldable pub read_le : ℕ → List ℕ → Option (ℕ × List ℕ)
read_le zero bs = some (0, bs)
read_le (suc k) [] = none
read_le (suc k) (b ∷ bs) = shifted b (read_le k bs)

pub read_le-le_bytes :
    (k n : ℕ) (rest : List ℕ) → n < size k → read_le k (le_bytes k n ++ rest) ≡ some (n, rest)
unfolding read_le le_bytes
read_le-le_bytes zero n rest h = ap (λ m. some (m, rest)) (omega arith)
read_le-le_bytes (suc k) n rest h =
    let fits : n / 256 < size k = omega arith in
    let whole : n % 256 + 256 * (n / 256) ≡ n = omega arith in
    rw (read_le-le_bytes k (n / 256) rest fits, whole) refl

abbrev pub and_then : {A : Type 0} → Option (ℕ × List ℕ) → (ℕ → List ℕ → Option A) → Option A
and_then none f = none
and_then (some (n, rest)) f = f n rest

abbrev pub at_end : {A : Type 0} → List ℕ → A → Option A
at_end [] w = some w
at_end (b ∷ bs) w = none
