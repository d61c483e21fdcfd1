-- ===== src/Latency/Percentile.antt =====
-- `percentile` and the figures of `print_report` in include/latency_stats.h.
use native.Mathlib.Nat.{mul-sub, mul-le-mul_left, mul-le-mul_right, mul-suc}
use c_web_socket_client_with.Prelude.{
  ℕ, suc, ◌+◌, ◌-◌, ◌*◌, ◌/◌, ◌%◌, ◌≤◌, ◌<◌, ◌≡◌, refl, ap, ap₂, sym, ◌∙◌, List, [], ◌∷◌, arith,
  leb, le→leb, gt→leb, le_cases, length, get_or, inl, inr, if◌then◌else◌,
}
use c_web_socket_client_with.Latency.{insert, sort, sum, back, percentile}
use c_web_socket_client_with.Latency.Sorted.{Above, IsSorted, get_or_mono}

-- The value between the samples at `l` and `l + 1`.
abbrev between : List ℕ → ℕ → ℕ → ℕ
between s l f =
    if leb (length s) (l + 1)
    then back s * 1000
    else get_or s l 0 * (1000 - f) + get_or s (l + 1) 0 * f

mix : (a b f : ℕ) → a ≤ b → f ≤ 1000 → a * (1000 - f) + b * f ≡ a * 1000 + f * (b - a)
mix a b f h k =
    omega (arith, mul-sub a 1000 f, mul-sub f b a, mul-le-mul_left a k, mul-le-mul_right f h)

-- A higher place in the same gap.
between_mono_in :
    (s : List ℕ) (l f g : ℕ) → IsSorted s → f ≤ g → g ≤ 1000 → between s l f ≤ between s l g
between_mono_in s l f g h le k = elim (le_cases (length s) (l + 1)) [
  | inl past ↦ rw (le→leb (length s) (l + 1) past) (omega arith)
  | inr in_ ↦
      let up = get_or_mono s l (l + 1) 0 h (omega arith) in_ in
      rw (gt→leb (length s) (l + 1) in_) (
        omega (
          arith,
          mix (get_or s l 0) (get_or s (l + 1) 0) f up (omega (arith, le, k)),
          mix (get_or s l 0) (get_or s (l + 1) 0) g up k,
          mul-le-mul_right (get_or s (l + 1) 0 - get_or s l 0) le,
        ))
]

-- At the lower end of a gap the value is the sample there.
between_zero : (s : List ℕ) (l : ℕ) → l < length s → between s l 0 ≡ get_or s l 0 * 1000
between_zero s l h = elim (le_cases (length s) (l + 1)) [
  | inl past ↦
      rw (le→leb (length s) (l + 1) past) (ap (λ i. get_or s i 0 * 1000) (omega (arith, h, past)))
  | inr in_ ↦ rw (gt→leb (length s) (l + 1) in_) (omega arith)
]

-- At its upper end it is the next sample.
between_full :
    (s : List ℕ) (l : ℕ) → l + 1 < length s → between s l 1000 ≡ get_or s (l + 1) 0 * 1000
between_full s l h = rw (gt→leb (length s) (l + 1) h) (omega arith)

between_mono :
    (s : List ℕ) (l m f g : ℕ)
    → IsSorted s
    → l < m
    → m < length s
    → f ≤ 1000
    → g ≤ 1000
    → between s l f ≤ between s m g
between_mono s l m f g h lt in_ kf kg = omega (
  arith,
  between_mono_in s l f 1000 h kf (omega arith),
  between_full s l (omega (arith, lt, in_)),
  get_or_mono s (l + 1) m 0 h (omega (arith, lt)) in_,
  between_zero s m in_,
  between_mono_in s m 0 g h (omega arith) kg,
)

-- The place `a` thousandths of a gap after the first sample.
place_mono :
    (s : List ℕ) (a b : ℕ)
    → IsSorted s
    → 0 < length s
    → a ≤ b
    → b ≤ 1000 * (length s - 1)
    → between s (a / 1000) (a % 1000) ≤ between s (b / 1000) (b % 1000)
place_mono s a b h pos le k = elim (le_cases (b / 1000) (a / 1000)) [
  | inl same ↦
      let l : a / 1000 ≡ b / 1000 = omega (arith, le, same) in
      rw l
        (between_mono_in s (b / 1000) (a % 1000) (b % 1000) h (omega (arith, le, l)) (omega arith))
  | inr lt ↦
      between_mono s (a / 1000) (b / 1000) (a % 1000) (b % 1000) h lt (omega (arith, k, pos))
        (omega arith) (omega arith)
]

percentile-between :
    (x : ℕ) (xs : List ℕ) (pct : ℕ)
    → percentile (x ∷ xs) pct
      ≡ between (x ∷ xs) (pct * (length (x ∷ xs) - 1) / 1000) (pct * (length (x ∷ xs) - 1) % 1000)
unfolding percentile
percentile-between x xs pct = refl

-- A higher percentile of the same samples is not smaller.
pub percentile_mono :
    (s : List ℕ) (p q : ℕ) → IsSorted s → p ≤ q → q ≤ 1000 → percentile s p ≤ percentile s q
unfolding percentile
percentile_mono [] p q h le k = omega arith
percentile_mono (x ∷ xs) p q h le k =
    let m = length (x ∷ xs) - 1 in
    place_mono (x ∷ xs) (p * m) (q * m) h (omega arith) (mul-le-mul_right m le)
      (mul-le-mul_right m k)

-- The lowest percentile is the minimum, the highest the maximum.
pub percentile_ends :
    (x : ℕ) (xs : List ℕ)
    → (percentile (x ∷ xs) 0 ≡ x * 1000) × (percentile (x ∷ xs) 1000 ≡ back (x ∷ xs) * 1000)
unfolding percentile
percentile_ends x xs =
    let m : suc (length xs) - 1 ≡ length xs = omega arith in
    (
      ap₂ (between (x ∷ xs)) {y = 0} {v = 0} (omega arith) (omega arith)
          ∙ between_zero (x ∷ xs) 0 (omega arith),
      ap₂ (between (x ∷ xs)) {y = length xs} {v = 0} (omega arith) (omega arith)
          ∙ between_zero (x ∷ xs) (length xs) (omega arith)
          ∙ ap (λ i. get_or (x ∷ xs) i 0 * 1000) (sym m),
    )

sum-Above : (x : ℕ) (xs : List ℕ) → Above x xs → x * length xs ≤ sum xs
unfolding sum
sum-Above x [] a = omega arith
sum-Above x (y ∷ ys) a = omega (arith, a.0, sum-Above x ys a.1, mul-suc x (length ys))

sum_below :
    (b : ℕ) (xs : List ℕ) → ((i : ℕ) → i < length xs → get_or xs i 0 ≤ b) → sum xs ≤ b * length xs
unfolding sum
sum_below b [] h = omega arith
sum_below b (y ∷ ys) h =
    let rest = sum_below b ys (λ i k. h (suc i) (omega (arith, k))) in
    omega (arith, h 0 (omega arith), rest, mul-suc b (length ys))

sum-insert : (x : ℕ) (ys : List ℕ) → sum (insert x ys) ≡ x + sum ys
unfolding sum insert
sum-insert x [] = refl
sum-insert x (y ∷ ys) = elim (le_cases x y) [
  | inl le ↦ rw (le→leb x y le) refl
  | inr gt ↦ rw (gt→leb x y gt) (omega (arith, sum-insert x ys))
]

pub sum-sort : (xs : List ℕ) → sum (sort xs) ≡ sum xs
unfolding sum sort
sum-sort [] = refl
sum-sort (x ∷ xs) = sum-insert x (sort xs) ∙ ap (λ n. x + n) (sum-sort xs)

-- The mean of sorted samples lies between the first and the last.
pub mean_bounds :
    (s : List ℕ)
    → IsSorted s
    → 0 < length s
    → (get_or s 0 0 * length s ≤ sum s) × (sum s ≤ back s * length s)
mean_bounds [] h pos = absurd (omega (arith, pos))
mean_bounds (x ∷ xs) h pos = (
  sum-Above x (x ∷ xs) (omega arith, h.0),
  sum_below (back (x ∷ xs)) (x ∷ xs)
      (λ i k. get_or_mono (x ∷ xs) i (length (x ∷ xs) - 1) 0 h (omega (arith, k)) (omega arith)),
)

-- A percentile is not below the sample at the lower end of its gap.
pub percentile-ge_lower :
    (s : List ℕ) (pct : ℕ)
    → IsSorted s
    → 0 < length s
    → pct ≤ 1000
    → get_or s (pct * (length s - 1) / 1000) 0 * 1000 ≤ percentile s pct
unfolding percentile
percentile-ge_lower [] pct h pos k = absurd (omega (arith, pos))
percentile-ge_lower (x ∷ xs) pct h pos k =
    let m : ℕ = length (x ∷ xs) - 1 in
    let l : ℕ = pct * m / 1000 in
    omega (
      arith,
      between_zero (x ∷ xs) l (omega (arith, mul-le-mul_right m k)),
      between_mono_in (x ∷ xs) l 0 (pct * m % 1000) h (omega arith) (omega arith),
    )
