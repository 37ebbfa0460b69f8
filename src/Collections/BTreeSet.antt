-- ===== src/Collections/BTreeSet.antt =====
-- `std::collections::BTreeSet` of integers, as the list of its members in ascending order.
use hft_clob_core.Prelude.{
  ℕ, ◌<◌, ◌≡◌, refl, Bool, true, false, ◌||◌, List, [], ◌∷◌, ltb, ◌==◌, if◌then◌else◌, arith,
}

unfoldable pub contains : ℕ → List ℕ → Bool
contains k [] = false
contains k (j ∷ s) = j == k || contains k s

unfoldable pub insert : ℕ → List ℕ → List ℕ
insert k [] = k ∷ []
insert k (j ∷ s) = if ltb k j then k ∷ j ∷ s else if j == k then j ∷ s else j ∷ insert k s

unfoldable pub remove : ℕ → List ℕ → List ℕ
remove k [] = []
remove k (j ∷ s) = if j == k then remove k s else j ∷ remove k s

abbrev pub is_empty : List ℕ → Bool
is_empty [] = true
is_empty (j ∷ s) = false

abbrev pub Above : ℕ → List ℕ → Type 0
Above k [] = Unit {0}
Above k (j ∷ s) = (k < j) × Above k s

-- The order in which the set is iterated.
abbrev pub IsAscending : List ℕ → Type 0
IsAscending [] = Unit {0}
IsAscending (j ∷ s) = Above j s × IsAscending s

pub contains-insert :
    (j k : ℕ) (s : List ℕ) → contains j (insert k s) ≡ (if j == k then true else contains j s)
unfolding contains insert
contains-insert j k [] = ground arith
contains-insert j k (i ∷ s) = ground (arith, contains-insert j k s)

pub contains-remove :
    (j k : ℕ) (s : List ℕ) → contains j (remove k s) ≡ (if j == k then false else contains j s)
unfolding contains remove
contains-remove j k [] = ground arith
contains-remove j k (i ∷ s) = ground (arith, contains-remove j k s)

Above-trans : (i k : ℕ) (s : List ℕ) → i < k → Above k s → Above i s
Above-trans i k [] h a = tt
Above-trans i k (j ∷ s) h a = (omega arith, Above-trans i k s h a.1)

Above-insert : (i k : ℕ) (s : List ℕ) → i < k → Above i s → Above i (insert k s)
unfolding insert
Above-insert i k [] h a = (h, tt)
Above-insert i k (j ∷ s) h a = ground (arith, Above-insert i k s h a.1)

Above-remove : (i k : ℕ) (s : List ℕ) → Above i s → Above i (remove k s)
unfolding remove
Above-remove i k [] a = tt
Above-remove i k (j ∷ s) a = ground (arith, Above-remove i k s a.1)

pub insert-IsAscending : (k : ℕ) (s : List ℕ) → IsAscending s → IsAscending (insert k s)
unfolding insert
insert-IsAscending k [] a = (tt, tt)
insert-IsAscending k (j ∷ s) a =
    ground (arith, insert-IsAscending k s a.1, Above-insert j k s, Above-trans k j s)

pub remove-IsAscending : (k : ℕ) (s : List ℕ) → IsAscending s → IsAscending (remove k s)
unfolding remove
remove-IsAscending k [] a = tt
remove-IsAscending k (j ∷ s) a = ground (arith, remove-IsAscending k s a.1, Above-remove j k s a.0)

pub remove_absent : (k : ℕ) (s : List ℕ) → contains k s ≡ false → remove k s ≡ s
unfolding contains remove
remove_absent k [] h = refl
remove_absent k (j ∷ s) h = ground (arith, remove_absent k s)

pub remove-insert : (k : ℕ) (s : List ℕ) → contains k s ≡ false → remove k (insert k s) ≡ s
unfolding contains remove insert
remove-insert k [] h = ground arith
remove-insert k (j ∷ s) h = ground (arith, remove-insert k s, remove_absent k s)

-- A set that has a member is not empty, and an empty one has none.
pub contains-is_empty : (k : ℕ) (s : List ℕ) → is_empty s ≡ true → contains k s ≡ false
unfolding contains
contains-is_empty k [] h = refl
contains-is_empty k (j ∷ s) h = ground arith
