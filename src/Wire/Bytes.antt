-- ===== src/Wire/Bytes.antt =====
-- `to_le_bytes` and `from_le_bytes` of Rust's library, for numbers of any width. A byte is a number
-- below 256.
use hft_clob_core.Prelude.{
  ℕ, zero, suc, ◌+◌, ◌*◌, ◌/◌, ◌%◌, ◌<◌, ◌≡◌, refl, List, [], ◌∷◌, ◌++◌, length, drop, arith,
}

-- The first value that `k` bytes do not hold.
abbrev pub size : ℕ → ℕ
size zero = 1
size (suc k) = 256 * size k

unfoldable pub le_bytes : ℕ → ℕ → List ℕ
le_bytes zero n = []
le_bytes (suc k) n = n % 256 ∷ le_bytes k (n / 256)

-- The number in the first `k` bytes, if there are as many.
unfoldable pub from_le : ℕ → List ℕ → ℕ
from_le zero bs = 0
from_le (suc k) [] = 0
from_le (suc k) (b ∷ bs) = b + 256 * from_le k bs

pub from_le-le_bytes : (k n : ℕ) (rest : List ℕ) → n < size k → from_le k (le_bytes k n ++ rest) ≡ n
unfolding from_le le_bytes
from_le-le_bytes zero n rest h = omega arith
from_le-le_bytes (suc k) n rest h =
    let fits : n / 256 < size k = omega arith in
    let read = from_le-le_bytes k (n / 256) rest fits in omega (arith, read)

pub drop-le_bytes : (k n : ℕ) (rest : List ℕ) → drop k (le_bytes k n ++ rest) ≡ rest
unfolding le_bytes
drop-le_bytes zero n rest = refl
drop-le_bytes (suc k) n rest = drop-le_bytes k (n / 256) rest

pub length-le_bytes : (k n : ℕ) (rest : List ℕ) → length (le_bytes k n ++ rest) ≡ k + length rest
unfolding le_bytes
length-le_bytes zero n rest = omega arith
length-le_bytes (suc k) n rest =
    let shorter = length-le_bytes k (n / 256) rest in omega (arith, shorter)
