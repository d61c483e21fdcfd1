-- ===== src/Display/Tests.antt =====
-- Boxes at concrete texts.
use c_web_socket_client_with.Prelude.{some, ◌≡◌, refl, List, [], ◌∷◌}
use c_web_socket_client_with.Display.{setw_left, spaces}
use c_web_socket_client_with.Display.Tables.{size_line}
use Prim.Native.String.{String}
use c_web_socket_client_with.Display.System.{print_system_info}
use c_web_socket_client_with.Display.Widths.{widths}
use c_web_socket_client_with.Display.Drawn.{print_system_info-widths}

size_line_of_echo :
    size_line (record { size = "16"; min = "0.3"; mean = "0.4"; p99 = "0.9"; max = "1.2" })
    ≡ "│    16 B │      0.3 │      0.4 │      0.9 │      1.2 │"
unfolding spaces
size_line_of_echo = refl

-- A text that is too long is not cut.
long_field : setw_left 3 "12345" ≡ "12345"
unfolding spaces
long_field = refl

print_system_info-widths_example :
    (ls : List String) × (print_system_info 8 ≡ some ls)
    × (widths ls ≡ 48 ∷ 47 ∷ 48 ∷ 48 ∷ 48 ∷ 48 ∷ 47 ∷ 48 ∷ [])
print_system_info-widths_example = print_system_info-widths 8
