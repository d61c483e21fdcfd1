-- ===== src/Latency/Tests.antt =====
-- A few samples of include/latency_stats.h, as in tests/test_latency_stats.cpp, and the theorems at them.
use c_web_socket_client_with.Prelude.{◌≡◌, ◌+◌, ◌*◌, ◌↔◌, refl, none, some, [], ◌∷◌, arith}
use c_web_socket_client_with.Latency.{LatencyStats, Report, sort, percentile, report}
use c_web_socket_client_with.Latency.Figures.{IsOrdered, report-IsOrdered}
use c_web_socket_client_with.Latency.Order.{report_of, bag_of, sort_iff}
use c_web_socket_client_with.Latency.Deviation.{sum_of_squares, report-deviation}

abbrev three : LatencyStats
three = 3000 ∷ 1000 ∷ 2000 ∷ []

abbrev swapped : LatencyStats
swapped = 1000 ∷ 3000 ∷ 2000 ∷ []

median_of_three : percentile (sort three) 500 ≡ 2000000
unfolding percentile sort
median_of_three = refl

no_samples : report [] ≡ none
unfolding report
no_samples = refl

report-IsOrdered_example : (r : Report) × (report three ≡ some r) × IsOrdered three r
report-IsOrdered_example = report-IsOrdered three (omega arith)

sort_iff_example :
    (report three ≡ report_of (bag_of three))
    × ((sort three ≡ sort swapped) ↔ (bag_of three ≡ bag_of swapped))
sort_iff_example = sort_iff three swapped

report-deviation_example :
    (r : Report) × (report three ≡ some r)
    × (r.squares + r.samples * (r.total * r.total) ≡ r.samples * r.samples * sum_of_squares three)
    × ((r.squares ≡ 0) ↔ (r.min ≡ r.max))
report-deviation_example = report-deviation three (omega arith)
