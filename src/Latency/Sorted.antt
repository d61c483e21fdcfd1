-- ===== src/Latency/Sorted.antt =====
-- The sorted samples of include/latency_stats.h.
use c_web_socket_client_with.Prelude.{
  ℕ, zero, suc, ◌≤◌, ◌<◌, ◌≡◌, refl, ap, ◌∙◌, List, [], ◌∷◌, arith, le→leb, gt→leb, le_cases,
  length, get_or, inl, inr,
}
use c_web_socket_client_with.Latency.{insert, sort}

-- No item is below `x`.
abbrev pub Above : ℕ → List ℕ → Type 0
Above x [] = Unit
Above x (y ∷ ys) = (x ≤ y) × Above x ys

abbrev pub IsSorted : List ℕ → Type 0
IsSorted [] = Unit
IsSorted (x ∷ xs) = Above x xs × IsSorted xs

Above-le : {x y : ℕ} (ys : List ℕ) → x ≤ y → Above y ys → Above x ys
Above-le [] h a = tt
Above-le (z ∷ ys) h a = (omega (arith, h, a.0), Above-le ys h a.1)

Above-insert : {z : ℕ} (x : ℕ) (ys : List ℕ) → z ≤ x → Above z ys → Above z (insert x ys)
unfolding insert
Above-insert x [] h a = (h, tt)
Above-insert x (y ∷ ys) h a = elim (le_cases x y) [
  | inl le ↦ rw (le→leb x y le) (h, a)
  | inr gt ↦ rw (gt→leb x y gt) (a.0, Above-insert x ys h a.1)
]

insert-IsSorted : (x : ℕ) (ys : List ℕ) → IsSorted ys → IsSorted (insert x ys)
unfolding insert
insert-IsSorted x [] s = (tt, tt)
insert-IsSorted x (y ∷ ys) s = elim (le_cases x y) [
  | inl le ↦ rw (le→leb x y le) ((le, Above-le ys le s.0), s)
  | inr gt ↦
      rw (gt→leb x y gt) (Above-insert x ys (omega (arith, gt)) s.0, insert-IsSorted x ys s.1)
]

pub sort-IsSorted : (xs : List ℕ) → IsSorted (sort xs)
unfolding sort
sort-IsSorted [] = tt
sort-IsSorted (x ∷ xs) = insert-IsSorted x (sort xs) (sort-IsSorted xs)

length-insert : (x : ℕ) (ys : List ℕ) → length (insert x ys) ≡ suc (length ys)
unfolding insert
length-insert x [] = refl
length-insert x (y ∷ ys) = elim (le_cases x y) [
  | inl le ↦ rw (le→leb x y le) refl
  | inr gt ↦ rw (gt→leb x y gt) (ap suc (length-insert x ys))
]

pub length-sort : (xs : List ℕ) → length (sort xs) ≡ length xs
unfolding sort
length-sort [] = refl
length-sort (x ∷ xs) = length-insert x (sort xs) ∙ ap suc (length-sort xs)

Above-get_or : (x : ℕ) (xs : List ℕ) (i d : ℕ) → Above x xs → i < length xs → x ≤ get_or xs i d
Above-get_or x [] i d a h = absurd (omega (arith, h))
Above-get_or x (y ∷ ys) zero d a h = a.0
Above-get_or x (y ∷ ys) (suc i) d a h = Above-get_or x ys i d a.1 (omega (arith, h))

-- In a sorted list the items go up with their index.
pub get_or_mono :
    (xs : List ℕ) (i j d : ℕ) → IsSorted xs → i ≤ j → j < length xs → get_or xs i d ≤ get_or xs j d
get_or_mono [] i j d s le h = absurd (omega (arith, h))
get_or_mono (x ∷ xs) zero zero d s le h = omega arith
get_or_mono (x ∷ xs) zero (suc j) d s le h = Above-get_or x xs j d s.0 (omega (arith, h))
get_or_mono (x ∷ xs) (suc i) zero d s le h = absurd (omega (arith, le))
get_or_mono (x ∷ xs) (suc i) (suc j) d s le h =
    get_or_mono xs i j d s.1 (omega (arith, le)) (omega (arith, h))
