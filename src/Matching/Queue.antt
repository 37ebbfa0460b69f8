-- ===== src/Matching/Queue.antt =====
-- The orders of one price level by time of arrival, as a list: the view of a level that the
-- properties of crates/matching/src/book.rs are stated in.
use hft_clob_core.Prelude.{
  ℕ, ◌+◌, ◌≤◌, ◌<◌, ◌≡◌, refl, Bool, true, false, ◌||◌, List, [], ◌∷◌, ◌++◌, Option, none, some,
  is_some, ltb, ◌==◌, if◌then◌else◌, arith, length,
}
use hft_clob_core.Domain.Side.{Side}

-- `pricelevel::OrderType::Standard`. The fields that the book always fills with the same constant
-- (`user_id`, `time_in_force`, `extra_fields`) are left out.
pub record PlOrder : Type 0 where
  pub id : ℕ
  pub price : ℕ
  pub quantity : ℕ
  pub side : Side
  pub timestamp : ℕ

-- What the operations do to the list of a level's orders by time of arrival.
-- `find(|o| o.id() == id)`
unfoldable pub find : ℕ → List PlOrder → Option PlOrder
find i [] = none
find i (o ∷ os) = if o.id == i then some o else find i os

unfoldable pub has : ℕ → List PlOrder → Bool
has i [] = false
has i (o ∷ os) = o.id == i || has i os

-- Behind every order that is not younger.
unfoldable pub insert_by_time : PlOrder → List PlOrder → List PlOrder
insert_by_time o [] = o ∷ []
insert_by_time o (q ∷ qs) =
    if ltb o.timestamp q.timestamp then o ∷ q ∷ qs else q ∷ insert_by_time o qs

unfoldable pub remove : ℕ → List PlOrder → List PlOrder
remove i [] = []
remove i (o ∷ os) = if o.id == i then remove i os else o ∷ remove i os

unfoldable pub set_quantity : ℕ → ℕ → List PlOrder → List PlOrder
set_quantity i q [] = []
set_quantity i q (o ∷ os) =
    (if o.id == i then record o { quantity = q } else o) ∷ set_quantity i q os

-- No two orders share an id, none is empty, and the timestamps rise up to `seq`.
abbrev pub IsYoungerThan : ℕ → List PlOrder → Type 0
IsYoungerThan t [] = Unit {0}
IsYoungerThan t (o ∷ os) = (t < o.timestamp) × IsYoungerThan t os

abbrev pub IsQueue : ℕ → List PlOrder → Type 0
IsQueue seq [] = Unit {0}
IsQueue seq (o ∷ os) =
    (1 ≤ o.quantity)
    × (o.timestamp ≤ seq)
    × (has o.id os ≡ false)
    × IsYoungerThan o.timestamp os
    × IsQueue seq os

pub has-find : (i : ℕ) (os : List PlOrder) → has i os ≡ is_some (find i os)
unfolding has find
has-find i [] = refl
has-find i (o ∷ os) = ground (arith, has-find i os)

pub has-remove :
    (j i : ℕ) (os : List PlOrder) → has j (remove i os) ≡ (if j == i then false else has j os)
unfolding has remove
has-remove j i [] = ground arith
has-remove j i (o ∷ os) = ground (arith, has-remove j i os)

pub has-set_quantity : (j i q : ℕ) (os : List PlOrder) → has j (set_quantity i q os) ≡ has j os
unfolding has set_quantity
has-set_quantity j i q [] = refl
has-set_quantity j i q (o ∷ os) = ground (arith, has-set_quantity j i q os)

pub has-append_one :
    (j : ℕ) (o : PlOrder) (os : List PlOrder)
    → has j (os ++ o ∷ []) ≡ (if j == o.id then true else has j os)
unfolding has
has-append_one j o [] = ground arith
has-append_one j o (q ∷ os) = ground (arith, has-append_one j o os)

-- An order younger than all others goes to the end: arrival order is time order.
pub insert_by_time-append :
    (seq : ℕ) (o : PlOrder) (os : List PlOrder)
    → IsQueue seq os
    → seq < o.timestamp
    → insert_by_time o os ≡ os ++ o ∷ []
unfolding insert_by_time
insert_by_time-append seq o [] v h = refl
insert_by_time-append seq o (q ∷ os) v h = ground (arith, insert_by_time-append seq o os v.4 h)

IsYoungerThan-remove :
    (t i : ℕ) (os : List PlOrder) → IsYoungerThan t os → IsYoungerThan t (remove i os)
unfolding remove
IsYoungerThan-remove t i [] v = tt
IsYoungerThan-remove t i (o ∷ os) v = ground (arith, IsYoungerThan-remove t i os v.1)

IsYoungerThan-set_quantity :
    (t i q : ℕ) (os : List PlOrder) → IsYoungerThan t os → IsYoungerThan t (set_quantity i q os)
unfolding set_quantity
IsYoungerThan-set_quantity t i q [] v = tt
IsYoungerThan-set_quantity t i q (o ∷ os) v =
    ground (arith, IsYoungerThan-set_quantity t i q os v.1)

IsYoungerThan-append_one :
    (t : ℕ) (o : PlOrder) (os : List PlOrder)
    → IsYoungerThan t os
    → t < o.timestamp
    → IsYoungerThan t (os ++ o ∷ [])
IsYoungerThan-append_one t o [] v h = (h, tt)
IsYoungerThan-append_one t o (q ∷ os) v h = (v.0, IsYoungerThan-append_one t o os v.1 h)

pub remove-IsQueue : (seq i : ℕ) (os : List PlOrder) → IsQueue seq os → IsQueue seq (remove i os)
unfolding remove
remove-IsQueue seq i [] v = tt
remove-IsQueue seq i (o ∷ os) v = ground (
  arith,
  remove-IsQueue seq i os v.4,
  has-remove o.id i os,
  IsYoungerThan-remove o.timestamp i os v.3,
)

pub set_quantity-IsQueue :
    (seq i q : ℕ) (os : List PlOrder) → 1 ≤ q → IsQueue seq os → IsQueue seq (set_quantity i q os)
unfolding set_quantity
set_quantity-IsQueue seq i q [] h v = tt
set_quantity-IsQueue seq i q (o ∷ os) h v = ground (
  arith,
  set_quantity-IsQueue seq i q os h v.4,
  has-set_quantity o.id i q os,
  IsYoungerThan-set_quantity o.timestamp i q os v.3,
)

pub append_one-IsQueue :
    (seq : ℕ) (o : PlOrder) (os : List PlOrder)
    → IsQueue seq os
    → 1 ≤ o.quantity
    → o.timestamp ≡ seq + 1
    → has o.id os ≡ false
    → IsQueue (seq + 1) (os ++ o ∷ [])
unfolding has
append_one-IsQueue seq o [] v q t h = (q, omega arith, refl, tt, tt)
append_one-IsQueue seq o (p ∷ os) v q t h = ground (
  arith,
  append_one-IsQueue seq o os v.4,
  has-append_one p.id o os,
  IsYoungerThan-append_one p.timestamp o os v.3,
)

pub IsQueue-mono :
    (seq seq' : ℕ) (os : List PlOrder) → seq ≤ seq' → IsQueue seq os → IsQueue seq' os
IsQueue-mono seq seq' [] h v = tt
IsQueue-mono seq seq' (o ∷ os) h v = (v.0, omega arith, v.2, v.3, IsQueue-mono seq seq' os h v.4)

pub remove_absent : (i : ℕ) (os : List PlOrder) → has i os ≡ false → remove i os ≡ os
unfolding has remove
remove_absent i [] h = refl
remove_absent i (o ∷ os) h = ground (arith, remove_absent i os)

pub remove-append_one :
    (o : PlOrder) (os : List PlOrder) → has o.id os ≡ false → remove o.id (os ++ o ∷ []) ≡ os
unfolding has remove
remove-append_one o [] h = ground arith
remove-append_one o (p ∷ os) h = ground (arith, remove-append_one o os)

-- The found order is one of the queue.
pub find_quantity :
    (seq i : ℕ) (os : List PlOrder) (o : PlOrder)
    → IsQueue seq os
    → find i os ≡ some o
    → (1 ≤ o.quantity) × (o.id ≡ i)
unfolding find
find_quantity seq i [] o v h = cc
find_quantity seq i (p ∷ os) o v h = ground (arith, find_quantity seq i os o v.4)

pub length-set_quantity : (i q : ℕ) (os : List PlOrder) → length (set_quantity i q os) ≡ length os
unfolding set_quantity
length-set_quantity i q [] = refl
length-set_quantity i q (o ∷ os) = omega (arith, length-set_quantity i q os)

pub set_quantity_absent :
    (i q : ℕ) (os : List PlOrder) → has i os ≡ false → set_quantity i q os ≡ os
unfolding has set_quantity
set_quantity_absent i q [] h = refl
set_quantity_absent i q (o ∷ os) h = ground (arith, set_quantity_absent i q os)

-- The steps of the matching walk on the head of a queue.
pub remove_head :
    (seq : ℕ) (o : PlOrder) (os : List PlOrder) → IsQueue seq (o ∷ os) → remove o.id (o ∷ os) ≡ os
unfolding remove
remove_head seq o os v = ground (arith, remove_absent o.id os v.2)

pub set_quantity_head :
    (seq q : ℕ) (o : PlOrder) (os : List PlOrder)
    → IsQueue seq (o ∷ os)
    → set_quantity o.id q (o ∷ os) ≡ record o { quantity = q } ∷ os
unfolding set_quantity
set_quantity_head seq q o os v = ground (arith, set_quantity_absent o.id q os v.2)

pub find_head : (o : PlOrder) (os : List PlOrder) → find o.id (o ∷ os) ≡ some o
unfolding find
find_head o os = ground arith
