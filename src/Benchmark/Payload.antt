-- ===== src/Benchmark/Payload.antt =====
-- The payload and the table of benchmarks/benchmark_client.cpp.
use c_web_socket_client_with.Prelude.{
  ℕ, zero, suc, ◌+◌, ◌-◌, ◌*◌, ◌%◌, ◌≤◌, ◌<◌, ◌≡◌, refl, ap, subst, arith, length, get_or,
}
use c_web_socket_client_with.Latency.{LatencyStats, count, sort, sum, percentile}
use c_web_socket_client_with.Latency.Sorted.{sort-IsSorted, length-sort, get_or_mono}
use c_web_socket_client_with.Latency.Percentile.{percentile-ge_lower, mean_bounds, sum-sort}
use c_web_socket_client_with.Benchmark.{payload_from, make_payload, Row, p99_index, size_row}

length-payload_from : (i n : ℕ) → length (payload_from i n) ≡ n
unfolding payload_from
length-payload_from i zero = refl
length-payload_from i (suc n) = ap suc (length-payload_from (i + 1) n)

get_or-payload_from : (i n j d : ℕ) → j < n → get_or (payload_from i n) j d ≡ b'A' + (i + j) % 26
unfolding payload_from
get_or-payload_from i zero j d h = absurd (omega (arith, h))
get_or-payload_from i (suc n) zero d h = omega arith
get_or-payload_from i (suc n) (suc j) d h =
    omega (arith, get_or-payload_from (i + 1) n j d (omega (arith, h)))

-- A payload has the size asked for, and its bytes run through the letters A to Z again and again.
pub make_payload_lem :
    (size j d : ℕ)
    → j < size
    → (length (make_payload size) ≡ size)
      × (get_or (make_payload size) j d ≡ b'A' + j % 26)
      × (b'A' ≤ get_or (make_payload size) j d)
      × (get_or (make_payload size) j d ≤ b'Z')
make_payload_lem size j d h =
    let e = get_or-payload_from 0 size j d h in
    (length-payload_from 0 size, omega (arith, e), omega (arith, e), omega (arith, e))

-- The figures of a line are in their natural order.
pub record IsRow (s : LatencyStats) (r : Row) : Type 0 where
  pub samples : r.samples ≡ count s
  pub total : r.total ≡ sum s
  pub min-p99 : r.min ≤ r.p99
  pub p99-max : r.p99 ≤ r.max
  pub p99-percentile : r.p99 * 1000 ≤ percentile (sort s) 990
  pub mean_low : r.min * r.samples ≤ r.total
  pub mean_high : r.total ≤ r.max * r.samples

-- A line of the table over one or more samples: its index for the 99th percentile lies in the array;
-- that value comes between the minimum and the maximum and is at most the percentile that
-- `print_report` prints, and the mean lies between the minimum and the maximum.
pub size_row-IsRow :
    (s : LatencyStats)
    → 0 < count s
    → (p99_index (length (sort s)) < length (sort s)) × IsRow s (size_row s)
unfolding size_row
size_row-IsRow s pos =
    let n = length-sort s in
    let h = sort-IsSorted s in
    let some_samples : 0 < length (sort s) = omega (arith, n, pos) in
    let mean = mean_bounds (sort s) h some_samples in
    (
      omega arith,
      record {
        samples = n;
        total = sum-sort s;
        min-p99 =
            get_or_mono (sort s) 0 (p99_index (length (sort s))) 0 h (omega arith) (omega arith);
        p99-max =
            get_or_mono (sort s) (p99_index (length (sort s))) (length (sort s) - 1) 0 h
              (omega arith) (omega arith);
        p99-percentile =
            subst (λ i. get_or (sort s) i 0 * 1000 ≤ percentile (sort s) 990) (omega arith)
              (percentile-ge_lower (sort s) 990 h some_samples (omega arith));
        mean_low = mean.0;
        mean_high = mean.1;
      },
    )
