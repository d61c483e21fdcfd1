-- ===== src/Display/Tables.antt =====
-- The boxes of benchmarks/benchmark_client.cpp.
use Prim.Native.String.{String, ◌++◌}
use c_web_socket_client_with.Prelude.{List, [], ◌∷◌}
use c_web_socket_client_with.Display.{setw_left, setw_right}

-- `print_header`
abbrev pub header : String → List String
header title =
    ""
    ∷ "════════════════════════════════════════════════"
    ∷ ("  " ++ title)
    ∷ "════════════════════════════════════════════════"
    ∷ []

-- The box of `benchmark_throughput`; `std::left` stays in force after the first figure.
abbrev pub throughput_box : (messages total_ms msgs_per_sec interval_us : String) → List String
throughput_box messages total_ms msgs_per_sec interval_us =
    "┌─────────────────────────────────────────────┐"
    ∷ ("│ Throughput Results" ++ ("                          " ++ " │"))
    ∷ "├─────────────────────────────────────────────┤"
    ∷ ("│  Messages     : " ++ (setw_left 28 messages ++ "│"))
    ∷ ("│  Total time   : " ++ (setw_left 24 total_ms ++ " ms │"))
    ∷ ("│  Throughput   : " ++ (setw_left 22 msgs_per_sec ++ " msg/s │"))
    ∷ ("│  Avg interval : " ++ (setw_left 24 interval_us ++ " µs │"))
    ∷ "└─────────────────────────────────────────────┘"
    ∷ []

-- A line of the table of `benchmark_message_sizes`, as texts.
pub record Cells : Type 0 where
  pub size : String
  pub min : String
  pub mean : String
  pub p99 : String
  pub max : String

abbrev pub size_line : Cells → String
size_line c =
    "│ "
    ++ (setw_right 5 c.size
        ++ (" B"
            ++ (" │ "
                ++ (setw_right 8 c.min
                    ++ (" │ "
                        ++ (setw_right 8 c.mean
                            ++ (" │ "
                                ++ (setw_right 8 c.p99
                                    ++ (" │ " ++ (setw_right 8 c.max ++ " │"))))))))))

abbrev pub size_lines : List Cells → List String
size_lines [] = "└─────────┴──────────┴──────────┴──────────┴──────────┘" ∷ []
size_lines (c ∷ cs) = size_line c ∷ size_lines cs

-- The table.
abbrev pub size_table : List Cells → List String
size_table cs =
    "┌─────────┬──────────┬──────────┬──────────┬──────────┐"
    ∷ "│  Size   │  Min µs  │  Mean µs │  p99 µs  │  Max µs  │"
    ∷ "├─────────┼──────────┼──────────┼──────────┼──────────┤"
    ∷ size_lines cs

-- The box at the start of `main`.
abbrev pub suite_box : (host port capacity : String) → List String
suite_box host port capacity =
    "╔══════════════════════════════════════════════╗"
    ∷ "║     WebSocket Latency Benchmark Suite        ║"
    ∷ "╠══════════════════════════════════════════════╣"
    ∷ ("║  Server: " ++ (setw_left 35 (host ++ (":" ++ port)) ++ " ║"))
    ∷ ("║  Queue:  " ++ (setw_left 35 (capacity ++ " slots (SPSC lock-free)") ++ " ║"))
    ∷ "╚══════════════════════════════════════════════╝"
    ∷ []
