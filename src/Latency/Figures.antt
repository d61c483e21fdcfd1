-- ===== src/Latency/Figures.antt =====
-- The report of include/latency_stats.h as a whole.
use c_web_socket_client_with.Prelude.{◌*◌, ◌≤◌, ◌<◌, ◌≡◌, refl, ◌∙◌, some, [], ◌∷◌, arith, length}
use c_web_socket_client_with.Latency.{LatencyStats, sort, sum, count, Report, figures, report}
use c_web_socket_client_with.Latency.Sorted.{IsSorted, sort-IsSorted, length-sort}
use c_web_socket_client_with.Latency.Percentile.{
  percentile_mono, percentile_ends, mean_bounds, sum-sort,
}

-- The figures of `s` are in their natural order.
pub record IsOrdered (s : LatencyStats) (r : Report) : Type 0 where
  pub samples : r.samples ≡ count s
  pub total : r.total ≡ sum s
  pub min-med : r.min * 1000 ≤ r.med
  pub med-p95 : r.med ≤ r.p95
  pub p95-p99 : r.p95 ≤ r.p99
  pub p99-p999 : r.p99 ≤ r.p999
  pub p999-max : r.p999 ≤ r.max * 1000
  pub mean_low : r.min * r.samples ≤ r.total
  pub mean_high : r.total ≤ r.max * r.samples

figures-IsOrdered :
    (s : LatencyStats)
    → IsSorted s
    → 0 < length s
    → (r : Report) × (figures s ≡ some r) × IsOrdered s r
unfolding figures
figures-IsOrdered [] h pos = absurd (omega (arith, pos))
figures-IsOrdered (x ∷ xs) h pos = (
  _,
  refl,
  record {
    samples = refl;
    total = refl;
    min-med = omega (
      arith,
      (percentile_ends x xs).0,
      percentile_mono (x ∷ xs) 0 500 h (omega arith) (omega arith),
    );
    med-p95 = percentile_mono (x ∷ xs) 500 950 h (omega arith) (omega arith);
    p95-p99 = percentile_mono (x ∷ xs) 950 990 h (omega arith) (omega arith);
    p99-p999 = percentile_mono (x ∷ xs) 990 999 h (omega arith) (omega arith);
    p999-max = omega (
      arith,
      (percentile_ends x xs).1,
      percentile_mono (x ∷ xs) 999 1000 h (omega arith) (omega arith),
    );
    mean_low = (mean_bounds (x ∷ xs) h pos).0;
    mean_high = (mean_bounds (x ∷ xs) h pos).1;
  },
)

-- The report of one or more samples counts them and adds them up; the minimum, the median, the 95th,
-- 99th and 99.9th percentile and the maximum come in this order, and the mean lies between the
-- minimum and the maximum.
pub report-IsOrdered :
    (s : LatencyStats) → 0 < count s → (r : Report) × (report s ≡ some r) × IsOrdered s r
unfolding report
report-IsOrdered s pos =
    let (r, e, o) =
      figures-IsOrdered (sort s) (sort-IsSorted s) (omega (arith, length-sort s, pos)) in
    (
      r,
      e,
      record {
        samples = o.samples ∙ length-sort s;
        total = o.total ∙ sum-sort s;
        min-med = o.min-med;
        med-p95 = o.med-p95;
        p95-p99 = o.p95-p99;
        p99-p999 = o.p99-p999;
        p999-max = o.p999-max;
        mean_low = o.mean_low;
        mean_high = o.mean_high;
      },
    )
