-- ===== src/Latency.antt =====
-- include/latency_stats.h: LatencyStats. A sample is a duration of the steady clock, in nanoseconds,
-- which is not negative; the doubles are exact, as thousandths of a nanosecond and as sums.
pub mod Sorted
pub mod Percentile
pub mod Figures
pub mod Deviation
pub mod Order
mod Tests
use c_web_socket_client_with.Prelude.{
  ℕ, ◌+◌, ◌-◌, ◌*◌, ◌/◌, ◌%◌, Option, none, some, List, [], ◌∷◌, ◌++◌, leb, if◌then◌else◌, length,
  get_or,
}

-- `samples_ns_`
abbrev pub LatencyStats : Type 0
LatencyStats = List ℕ

-- `record`, given the value of the clock at the call.
abbrev pub record_since : (start now : ℕ) → LatencyStats → LatencyStats
record_since start now s = s ++ (now - start) ∷ []

abbrev pub record_ns : ℕ → LatencyStats → LatencyStats
record_ns nanoseconds s = s ++ nanoseconds ∷ []

abbrev pub count : LatencyStats → ℕ
count s = length s

abbrev pub reset : LatencyStats → LatencyStats
reset s = []

unfoldable pub insert : ℕ → List ℕ → List ℕ
insert x [] = x ∷ []
insert x (y ∷ ys) = let rest = insert x ys in if leb x y then x ∷ y ∷ ys else y ∷ rest

-- `std::sort`
unfoldable pub sort : List ℕ → List ℕ
unfolding insert
sort [] = []
sort (x ∷ xs) = insert x (sort xs)

-- `std::accumulate` from 0
unfoldable pub sum : List ℕ → ℕ
sum [] = 0
sum (x ∷ xs) = x + sum xs

abbrev pub back : List ℕ → ℕ
back sorted = get_or sorted (length sorted - 1) 0

-- `percentile` at `pct` tenths of a percent, in thousandths of a nanosecond.
unfoldable pub percentile : List ℕ → ℕ → ℕ
percentile [] pct = 0
percentile (x ∷ xs) pct =
    let sorted = x ∷ xs in
    let rank = pct * (length sorted - 1) in
    let lower = rank / 1000 in
    let frac = rank % 1000 in
    if leb (length sorted) (lower + 1)
    then back sorted * 1000
    else get_or sorted lower 0 * (1000 - frac) + get_or sorted (lower + 1) 0 * frac

-- The loop of `sq_sum` over `n` samples with the sum `total`: `n * s - total` is `diff` times `1000 * n`.
abbrev pub diff : (n total s : ℕ) → ℕ
diff n total s = (n * s - total) + (total - n * s)

unfoldable pub squares : (n total : ℕ) → List ℕ → ℕ
squares n total [] = 0
squares n total (s ∷ rest) = diff n total s * diff n total s + squares n total rest

-- The figures that `print_report` prints: `total / samples` is the mean, `med` to `p999` are in
-- thousandths of a nanosecond. The standard deviation is the square root of
-- `squares / (1000000 * samples ^ 3)` microseconds.
pub record Report : Type 0 where
  pub samples : ℕ
  pub min : ℕ
  pub max : ℕ
  pub total : ℕ
  pub med : ℕ
  pub p95 : ℕ
  pub p99 : ℕ
  pub p999 : ℕ
  pub squares : ℕ

unfoldable pub figures : List ℕ → Option Report
unfolding percentile sum squares
figures [] = none
figures (x ∷ xs) =
    let sorted = x ∷ xs in
    some (record {
      samples = length sorted;
      min = x;
      max = back sorted;
      total = sum sorted;
      med = percentile sorted 500;
      p95 = percentile sorted 950;
      p99 = percentile sorted 990;
      p999 = percentile sorted 999;
      squares = squares (length sorted) (sum sorted) sorted;
    })

-- `print_report`; `none` is the line that says that there are no samples.
unfoldable pub report : LatencyStats → Option Report
unfolding figures sort
report s = figures (sort s)
