-- ===== src/Collections/BTreeMap.antt =====
-- `std::collections::BTreeMap` with integer keys, as the list of its entries by ascending key.
use hft_clob_core.Prelude.{
  ℕ, suc, ◌<◌, ◌≡◌, refl, List, [], ◌∷◌, Option, none, some, ltb, ◌==◌, if◌then◌else◌, arith,
}

module _ {ℓ} {V : Type ℓ} where
  unfoldable pub get : ℕ → List (ℕ × V) → Option V
  get k [] = none
  get k ((j, v) ∷ m) = if j == k then some v else get k m

  -- `insert`, and what `entry` leaves behind when the value is changed through it.
  unfoldable pub insert : ℕ → V → List (ℕ × V) → List (ℕ × V)
  insert k v [] = (k, v) ∷ []
  insert k v ((j, w) ∷ m) =
      if ltb k j then (k, v) ∷ (j, w) ∷ m else if j == k then (k, v) ∷ m else (j, w) ∷ insert k v m

  unfoldable pub remove : ℕ → List (ℕ × V) → List (ℕ × V)
  remove k [] = []
  remove k ((j, v) ∷ m) = if j == k then remove k m else (j, v) ∷ remove k m

  -- `keys().next()`
  unfoldable pub first_key : List (ℕ × V) → Option ℕ
  first_key [] = none
  first_key ((j, v) ∷ m) = some j

  -- `keys().next_back()`
  unfoldable pub last_key : List (ℕ × V) → Option ℕ
  last_key [] = none
  last_key ((j, v) ∷ []) = some j
  last_key ((j, v) ∷ e ∷ m) = last_key (e ∷ m)

  abbrev pub Above : ℕ → List (ℕ × V) → Type 0
  Above k [] = Unit {0}
  Above k ((j, v) ∷ m) = (k < j) × Above k m

  abbrev pub IsAscending : List (ℕ × V) → Type 0
  IsAscending [] = Unit {0}
  IsAscending ((j, v) ∷ m) = Above j m × IsAscending m

  pub get-insert :
      (j k : ℕ) (v : V) (m : List (ℕ × V))
      → get j (insert k v m) ≡ (if j == k then some v else get j m)
  unfolding get insert
  get-insert j k v [] = ground arith
  get-insert j k v ((i, w) ∷ m) = ground (arith, get-insert j k v m)

  pub get-remove :
      (j k : ℕ) (m : List (ℕ × V)) → get j (remove k m) ≡ (if j == k then none else get j m)
  unfolding get remove
  get-remove j k [] = ground arith
  get-remove j k ((i, w) ∷ m) = ground (arith, get-remove j k m)

  Above-trans : (i k : ℕ) (m : List (ℕ × V)) → i < k → Above k m → Above i m
  Above-trans i k [] h a = tt
  Above-trans i k ((j, v) ∷ m) h a = (omega arith, Above-trans i k m h a.1)

  Above-insert : (i k : ℕ) (v : V) (m : List (ℕ × V)) → i < k → Above i m → Above i (insert k v m)
  unfolding insert
  Above-insert i k v [] h a = (h, tt)
  Above-insert i k v ((j, w) ∷ m) h a = ground (arith, Above-insert i k v m h a.1)

  Above-remove : (i k : ℕ) (m : List (ℕ × V)) → Above i m → Above i (remove k m)
  unfolding remove
  Above-remove i k [] a = tt
  Above-remove i k ((j, w) ∷ m) a = ground (arith, Above-remove i k m a.1)

  pub insert-IsAscending :
      (k : ℕ) (v : V) (m : List (ℕ × V)) → IsAscending m → IsAscending (insert k v m)
  unfolding insert
  insert-IsAscending k v [] a = (tt, tt)
  insert-IsAscending k v ((j, w) ∷ m) a =
      ground (arith, insert-IsAscending k v m a.1, Above-insert j k v m, Above-trans k j m)

  pub remove-IsAscending : (k : ℕ) (m : List (ℕ × V)) → IsAscending m → IsAscending (remove k m)
  unfolding remove
  remove-IsAscending k [] a = tt
  remove-IsAscending k ((j, w) ∷ m) a =
      ground (arith, remove-IsAscending k m a.1, Above-remove j k m a.0)

  pub remove_absent : (k : ℕ) (m : List (ℕ × V)) → get k m ≡ none → remove k m ≡ m
  unfolding get remove
  remove_absent k [] h = refl
  remove_absent k ((j, v) ∷ m) h = ground (arith, remove_absent k m)

  pub remove-insert :
      (k : ℕ) (v : V) (m : List (ℕ × V)) → get k m ≡ none → remove k (insert k v m) ≡ m
  unfolding get remove insert
  remove-insert k v [] h = ground arith
  remove-insert k v ((j, w) ∷ m) h = ground (arith, remove-insert k v m, remove_absent k m)

  pub get-Above : (k j : ℕ) (m : List (ℕ × V)) → Above j m → k < suc j → get k m ≡ none
  unfolding get
  get-Above k j [] a h = refl
  get-Above k j ((i, w) ∷ m) a h = ground (arith, get-Above k j m a.1)

module _ {V : Type 0} where
  -- Writing back what stands there changes nothing.
  pub insert_same :
      (k : ℕ) (v : V) (m : List (ℕ × V)) → IsAscending m → get k m ≡ some v → insert k v m ≡ m
  unfolding get insert
  insert_same k v [] a h = cc
  insert_same k v ((j, w) ∷ m) a h = ground (arith, insert_same k v m a.1, get-Above k j m a.0)
