-- ===== src/Latency/Deviation.antt =====
-- The standard deviation that include/latency_stats.h reports.
use c_web_socket_client_with.Prelude.{
  ℕ, zero, suc, ◌+◌, ◌-◌, ◌*◌, ◌<◌, ◌≡◌, refl, ◌↔◌, ◌⊎◌, inl, inr, List, [], ◌∷◌, arith, length,
  dec_lt, sym, ap, ◌∙◌, get_or, some,
}
use c_web_socket_client_with.Latency.{
  LatencyStats, Report, count, insert, sort, sum, back, diff, squares, report, figures,
}
use c_web_socket_client_with.Latency.Sorted.{IsSorted, sort-IsSorted, length-sort, get_or_mono}
use c_web_socket_client_with.Latency.Percentile.{mean_bounds}

-- The sum of the squares of the samples.
abbrev pub sum_of_squares : List ℕ → ℕ
sum_of_squares [] = 0
sum_of_squares (s ∷ rest) = s * s + sum_of_squares rest

-- The difference of two numbers, one way or the other.
le_total : (a b : ℕ) → ((d : ℕ) × (a + d ≡ b)) ⊎ ((d : ℕ) × (b + d ≡ a))
le_total a b = elim (dec_lt a b) [
  | yes h ↦ inl (b - a, omega (arith, h))
  | no h ↦ inr (a - b, omega (arith, h))
]

square_of_gap : (a d x : ℕ) → x ≡ d → x * x + 2 * (a * (a + d)) ≡ a * a + (a + d) * (a + d)
square_of_gap a d x e = rw e omega arith

diff_square :
    (n total s : ℕ)
    → diff n total s * diff n total s + 2 * (n * s * total) ≡ n * s * (n * s) + total * total
diff_square n total s = elim (le_total (n * s) total) [
  | inl (d, e) ↦ rw (sym e) (square_of_gap (n * s) d _ (gap (n * s) d))
  | inr (d, e) ↦ rw (sym e) (omega (arith, square_of_gap total d _ (gap' total d)))
]
  where
    gap : (a d : ℕ) → (a - (a + d)) + ((a + d) - a) ≡ d
    gap a d = omega arith

    gap' : (a d : ℕ) → ((a + d) - a) + (a - (a + d)) ≡ d
    gap' a d = omega arith

squares_lem :
    (n total : ℕ) (l : List ℕ)
    → squares n total l + 2 * (n * total * sum l)
      ≡ n * n * sum_of_squares l + length l * (total * total)
unfolding squares sum
squares_lem n total [] = omega arith
squares_lem n total (s ∷ rest) = omega (arith, diff_square n total s, squares_lem n total rest)

square_zero : (d : ℕ) → d * d ≡ 0 → d ≡ 0
square_zero d e = grind arith

cancel : (n a b : ℕ) → 0 < n → n * a ≡ n * b → a ≡ b
cancel n a b h e = grind arith

sum_of_squares-insert :
    (x : ℕ) (ys : List ℕ) → sum_of_squares (insert x ys) ≡ x * x + sum_of_squares ys
unfolding insert
sum_of_squares-insert x [] = refl
sum_of_squares-insert x (y ∷ ys) = ground (arith, sum_of_squares-insert x ys)

sum_of_squares-sort : (xs : List ℕ) → sum_of_squares (sort xs) ≡ sum_of_squares xs
unfolding sort
sum_of_squares-sort [] = refl
sum_of_squares-sort (x ∷ xs) =
    sum_of_squares-insert x (sort xs) ∙ ap (λ t. x * x + t) (sum_of_squares-sort xs)

-- Every sample times `n` is `total`.
AllMean : (n total : ℕ) → List ℕ → Type 0
AllMean n total l = (i : ℕ) → i < length l → n * get_or l i 0 ≡ total

squares_zero : (n total : ℕ) (l : List ℕ) → squares n total l ≡ 0 → AllMean n total l
unfolding squares AllMean
squares_zero n total [] e i h = absurd (omega (arith, h))
squares_zero n total (s ∷ rest) e zero h =
    let d = square_zero (diff n total s) (omega (arith, e)) in omega (arith, d)
squares_zero n total (s ∷ rest) e (suc i) h =
    squares_zero n total rest (omega (arith, e)) i (omega (arith, h))

zero_squares : (n total : ℕ) (l : List ℕ) → AllMean n total l → squares n total l ≡ 0
unfolding squares AllMean
zero_squares n total [] h = refl
zero_squares n total (s ∷ rest) h =
    let first : n * s ≡ total = h 0 (omega arith) in
    let d : diff n total s ≡ 0 = omega (arith, first) in
    rw (d, zero_squares n total rest (λ i k. h (suc i) (omega (arith, k)))) refl

-- The samples are all equal exactly if the least and the greatest are.
squares_zero_iff :
    (l : List ℕ)
    → IsSorted l
    → 0 < length l
    → (squares (length l) (sum l) l ≡ 0) ↔ (get_or l 0 0 ≡ back l)
unfolding AllMean
squares_zero_iff l h pos = (
  λ e.
      let all = squares_zero (length l) (sum l) l e in
      cancel (length l) (get_or l 0 0) (back l) pos
        (all 0 pos ∙ sym (all (length l - 1) (omega (arith, pos)))),
  λ e. zero_squares (length l) (sum l) l (λ i k. same e i k),
)
  where
    same : get_or l 0 0 ≡ back l → (i : ℕ) → i < length l → length l * get_or l i 0 ≡ sum l
    same e i k =
        let mean = mean_bounds l h pos in
        let low = get_or_mono l 0 i 0 h (omega arith) k in
        let high = get_or_mono l i (length l - 1) 0 h (omega (arith, k)) (omega (arith, pos)) in
        let here : get_or l i 0 ≡ get_or l 0 0 = omega (arith, low, high, e) in
        rw here (omega (arith, mean, ap (λ x. x * length l) e))

figures-deviation :
    (l : List ℕ)
    → IsSorted l
    → 0 < length l
    → (r : Report) × (figures l ≡ some r)
      × (r.squares + r.samples * (r.total * r.total) ≡ r.samples * r.samples * sum_of_squares l)
      × ((r.squares ≡ 0) ↔ (r.min ≡ r.max))
unfolding figures
figures-deviation [] h pos = absurd (omega (arith, pos))
figures-deviation (x ∷ xs) h pos = (
  _,
  refl,
  omega (arith, squares_lem (length (x ∷ xs)) (sum (x ∷ xs)) (x ∷ xs)),
  squares_zero_iff (x ∷ xs) h pos,
)

-- The squared deviations from the mean of one or more samples, which the report adds up in a second
-- pass, are those of the formula without a mean: `n * n` times the sum of the squared samples, less
-- `n` times the squared sum. They are 0, and with them the standard deviation, exactly if the minimum
-- and the maximum are equal.
pub report-deviation :
    (s : LatencyStats)
    → 0 < count s
    → (r : Report) × (report s ≡ some r)
      × (r.squares + r.samples * (r.total * r.total) ≡ r.samples * r.samples * sum_of_squares s)
      × ((r.squares ≡ 0) ↔ (r.min ≡ r.max))
unfolding report
report-deviation s pos =
    let (r, e, one_pass, none) =
      figures-deviation (sort s) (sort-IsSorted s) (omega (arith, length-sort s, pos)) in
    (r, e, one_pass ∙ ap (λ q. r.samples * r.samples * q) (sum_of_squares-sort s), none)
