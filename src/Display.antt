-- ===== src/Display.antt =====
-- The boxes that the programs draw: LatencyStats::print_report of include/latency_stats.h, the tables of
-- benchmarks/benchmark_client.cpp, and print_system_info of src/main.cpp. A line is a text without its
-- line feed; a number is the text that the stream or `std::to_string` makes of it.
pub mod Report
pub mod Tables
pub mod System
pub mod Widths
pub mod Drawn
mod Tests
use Prim.Native.String.{String, ◌++◌, len}
use c_web_socket_client_with.Prelude.{ℕ, zero, suc, ◌-◌, Option, none, some, leb, if◌then◌else◌}

-- `std::string(n, ' ')`
unfoldable pub spaces : ℕ → String
spaces zero = ""
spaces (suc n) = " " ++ spaces n

-- A field of `std::setw(n)` with `std::left`, and one with `std::right`; a text that is longer is not
-- cut. The stream counts bytes.
abbrev pub setw_left : ℕ → String → String
setw_left n s = s ++ spaces (n - len s)

abbrev pub setw_right : ℕ → String → String
setw_right n s = spaces (n - len s) ++ s

-- `std::string(n - size, ' ')`: where the subtraction wraps around, the length is too large and the
-- constructor throws.
abbrev pub padding : (n size : ℕ) → Option String
padding n size = if leb size n then some (spaces (n - size)) else none
