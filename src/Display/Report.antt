-- ===== src/Display/Report.antt =====
-- LatencyStats::print_report of include/latency_stats.h: the lines that it prints.
use Prim.Native.String.{String, ◌++◌}
use c_web_socket_client_with.Prelude.{Option, none, some, List, [], ◌∷◌}
use c_web_socket_client_with.Display.{setw_left}

-- The figures as the stream prints them, fixed with two digits after the point.
pub record Figures : Type 0 where
  pub samples : String
  pub min : String
  pub max : String
  pub mean : String
  pub stddev : String
  pub median : String
  pub p95 : String
  pub p99 : String
  pub p999 : String

-- A line with the name of a figure in front.
abbrev pub figure_line : (name figure : String) → String
figure_line name figure = name ++ (setw_left 28 figure ++ " µs │")

-- The box of the report.
abbrev pub report_box : String → Figures → List String
report_box label f =
    "┌─────────────────────────────────────────────┐"
    ∷ ("│ " ++ (setw_left 43 label ++ " │"))
    ∷ "├─────────────────────────────────────────────┤"
    ∷ ("│  Samples : " ++ (setw_left 32 f.samples ++ "│"))
    ∷ figure_line "│  Min     : " f.min
    ∷ figure_line "│  Max     : " f.max
    ∷ figure_line "│  Mean    : " f.mean
    ∷ figure_line "│  StdDev  : " f.stddev
    ∷ figure_line "│  Median  : " f.median
    ∷ figure_line "│  p95     : " f.p95
    ∷ figure_line "│  p99     : " f.p99
    ∷ figure_line "│  p99.9   : " f.p999
    ∷ "└─────────────────────────────────────────────┘"
    ∷ []

-- What is printed: without samples one line, and otherwise the box between two empty lines.
abbrev pub report_lines : String → Option Figures → List String
report_lines label none = ("[" ++ (label ++ "] No samples recorded.")) ∷ []
report_lines label (some f) = "" ∷ framed (report_box label f)
  where
    framed : List String → List String
    framed [] = "" ∷ []
    framed (l ∷ ls) = l ∷ framed ls
