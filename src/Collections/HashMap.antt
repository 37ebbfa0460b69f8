-- ===== src/Collections/HashMap.antt =====
-- `std::collections::HashMap` with integer keys, by point look-up only, as a function.
use hft_clob_core.Prelude.{ℕ, ◌≡◌, fun_ext, Option, none, some, ◌==◌, if◌then◌else◌, arith}

abbrev pub HashMap {ℓ} : Type ℓ → Type ℓ
HashMap V = ℕ → Option V

module _ {ℓ} {V : Type ℓ} where
  abbrev pub empty : HashMap V
  empty k = none

  unfoldable pub insert : ℕ → V → HashMap V → HashMap V
  insert k v m j = if j == k then some v else m j

  unfoldable pub remove : ℕ → HashMap V → HashMap V
  remove k m j = if j == k then none else m j

  pub remove_absent : (k : ℕ) (m : HashMap V) → m k ≡ none → remove k m ≡ m
  unfolding remove
  remove_absent k m h = fun_ext λ j. ground arith

  pub remove-insert : (k : ℕ) (v : V) (m : HashMap V) → m k ≡ none → remove k (insert k v m) ≡ m
  unfolding remove insert
  remove-insert k v m h = fun_ext λ j. ground arith
