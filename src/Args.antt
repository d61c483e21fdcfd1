-- ===== src/Args.antt =====
-- `CliArgs` and `parse_args` of src/main.cpp.
pub mod Options
mod Tests
use Prim.Native.Char.{Char, code}
use Prim.Native.String.{String, [], ◌∷◌}
use Prim.Native.String.{compare}
use text.Mathlib.Text.{is_eq}
use c_web_socket_client_with.Prelude.{
  ℕ, ◌==◌, zero, suc, ◌+◌, ◌-◌, ◌*◌, ◌^◌, Bool, true, false, Option, none, some, List, [], ◌∷◌,
  ◌&&◌, ◌||◌, ltb, leb, if◌then◌else◌, ◌>>=◌,
}

pub data ℤ : Type 0 where
  pos : ℕ → ℤ
  negsuc : ℕ → ℤ

pub record CliArgs : Type 0 where
  pub host : String
  pub port : String
  pub pin_thread : Bool
  pub pin_core : ℤ
  pub auto_reconnect : Bool
  pub use_ssl : Bool

-- `==` of std::string.
abbrev pub same : String → String → Bool
same s t = is_eq (compare s t)

-- The default member initialisers.
abbrev pub default_args : CliArgs
default_args = record {
  host = "echo.websocket.events";
  port = "80";
  pin_thread = false;
  pin_core = negsuc 0;
  auto_reconnect = false;
  use_ssl = false;
}

abbrev is_digit : Char → Bool
is_digit c = leb 48 (code c) && leb (code c) 57

abbrev is_space : Char → Bool
is_space c = (code c == 32) || (leb 9 (code c) && leb (code c) 13)

-- The digits at the start of a text, after those that make `n`.
abbrev number : ℕ → String → ℕ
number n [] = n
number n (c ∷ s) = let rest = number (n * 10 + (code c - 48)) s in if is_digit c then rest else n

abbrev magnitude : String → Option ℕ
magnitude [] = none
magnitude (c ∷ s) = if is_digit c then some (number 0 (c ∷ s)) else none

-- A value within `int`, or the exception std::out_of_range.
abbrev int_of : ℕ → Option ℤ
int_of n = if ltb n (2 ^ 31) then some (pos n) else none

abbrev minus : ℕ → ℤ
minus zero = pos 0
minus (suc n) = negsuc n

abbrev negated : ℕ → Option ℤ
negated n = if leb n (2 ^ 31) then some (minus n) else none

abbrev signed : String → Option ℤ
signed [] = none
signed (c ∷ s) =
    if code c == 45
    then (do n ← magnitude s; negated n)
    else if code c == 43
    then (do n ← magnitude s; int_of n)
    else (do n ← magnitude (c ∷ s); int_of n)

-- `std::stoi`: white space, a sign, digits, and whatever follows them; `none` where it throws.
unfoldable pub stoi : String → Option ℤ
stoi [] = none
stoi (c ∷ s) = let rest = stoi s in if is_space c then rest else signed (c ∷ s)

-- The branches of the loop that read no second argument, from `--reconnect` on; `--help` ends the
-- program: `none`.
abbrev pub single : ℕ → String → CliArgs → Option CliArgs
single i arg args =
    if same arg "--reconnect"
    then some (record args { auto_reconnect = true })
    else if same arg "--ssl"
    then some
        (record args { use_ssl = true; port = if same args.port "80" then "443" else args.port })
    else if same arg "--help" || same arg "-h"
    then none
    else if same args.host "echo.websocket.events" && (i == 1)
    then some (record args { host = arg })
    else if same args.port "80" && (i == 2)
    then some (record args { port = arg })
    else some args

-- `--pin` before another argument: whether that one is the core, and the settings.
abbrev pub pin : Option ℤ → CliArgs → Bool × CliArgs
pin (some core) args = (true, record args { pin_thread = true; pin_core = core })
pin none args = (false, record args { pin_thread = true })

-- One round of the loop where `i + 1 < argc`: whether the next argument is read, and the settings.
abbrev pub round : ℕ → String → String → CliArgs → Option (Bool × CliArgs)
round i arg next args =
    if same arg "--host"
    then some (true, record args { host = next })
    else if same arg "--port"
    then some (true, record args { port = next })
    else if same arg "--pin"
    then some (pin (stoi next) args)
    else (do b ← single i arg args; some (false, b))

abbrev pub resume :
    Option (Bool × CliArgs) → (read skip : CliArgs → Option CliArgs) → Option CliArgs
resume none read skip = none
resume (some (true, args)) read skip = read args
resume (some (false, args)) read skip = skip args

-- The loop, from index `i` on.
unfoldable pub parse : ℕ → List String → CliArgs → Option CliArgs
unfolding stoi
parse i [] args = some args
parse i (arg ∷ []) args =
    if same arg "--pin" then some (record args { pin_thread = true }) else single i arg args
parse i (arg ∷ next ∷ rest) args =
    resume (round i arg next args) (λ b. parse (i + 2) rest b) (λ b. parse (i + 1) (next ∷ rest) b)

-- The arguments after the name of the program.
abbrev pub parse_args : List String → Option CliArgs
parse_args argv = parse 1 argv default_args
