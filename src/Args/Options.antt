-- ===== src/Args/Options.antt =====
-- `parse_args` of src/main.cpp on the options of its usage text, and on a host and a port.
use Prim.Native.String.{String}
use c_web_socket_client_with.Prelude.{
  ℕ, ◌+◌, ◌≡◌, refl, ap, ◌∙◌, Bool-cases, inl, inr, true, false, some, List, [], ◌∷◌, if◌then◌else◌,
  ◌&&◌, ◌||◌, Bool,
}
use c_web_socket_client_with.Args.{
  ℤ, negsuc, CliArgs, default_args, same, stoi, single, round, resume, parse, parse_args,
}

-- The options. The core is given as the text that stands for it.
pub data CliOption : Type 0 where
  host : String → CliOption
  port : String → CliOption
  ssl : CliOption
  pin : CliOption
  pin_to : (text : String) → ℤ → CliOption
  reconnect : CliOption

abbrev pub render : List CliOption → List String
render [] = []
render (host h ∷ os) = "--host" ∷ h ∷ render os
render (port p ∷ os) = "--port" ∷ p ∷ render os
render (ssl ∷ os) = "--ssl" ∷ render os
render (pin ∷ os) = "--pin" ∷ render os
render (pin_to t core ∷ os) = "--pin" ∷ t ∷ render os
render (reconnect ∷ os) = "--reconnect" ∷ render os

-- What the loop does with an option.
abbrev pub apply : CliOption → CliArgs → CliArgs
apply (host h) a = record a { host = h }
apply (port p) a = record a { port = p }
apply ssl a = record a { use_ssl = true; port = if same a.port "80" then "443" else a.port }
apply pin a = record a { pin_thread = true }
apply (pin_to t core) a = record a { pin_thread = true; pin_core = core }
apply reconnect a = record a { auto_reconnect = true }

abbrev pub apply_all : List CliOption → CliArgs → CliArgs
apply_all [] a = a
apply_all (o ∷ os) a = apply_all os (apply o a)

-- Each text of a core stands for that core.
abbrev pub AreCores : List CliOption → Type 0
AreCores [] = Unit
AreCores (pin_to t core ∷ os) = (stoi t ≡ some core) × AreCores os
AreCores (o ∷ os) = AreCores os

parse-reconnect :
    (i : ℕ) (rest : List String) (a : CliArgs)
    → parse i ("--reconnect" ∷ rest) a ≡ parse (i + 1) rest (record a { auto_reconnect = true })
unfolding parse
parse-reconnect i [] a = refl
parse-reconnect i (r ∷ rest) a = refl

parse-ssl :
    (i : ℕ) (rest : List String) (a : CliArgs)
    → parse i ("--ssl" ∷ rest) a ≡ parse (i + 1) rest (apply ssl a)
unfolding parse
parse-ssl i [] a = refl
parse-ssl i (r ∷ rest) a = refl

parse-pin :
    (i : ℕ) (os : List CliOption) (a : CliArgs)
    → parse i ("--pin" ∷ render os) a ≡ parse (i + 1) (render os) (apply pin a)
unfolding parse
parse-pin i [] a = refl
parse-pin i (host h ∷ os) a = refl
parse-pin i (port p ∷ os) a = refl
parse-pin i (ssl ∷ os) a = refl
parse-pin i (pin ∷ os) a = refl
parse-pin i (pin_to t core ∷ os) a = refl
parse-pin i (reconnect ∷ os) a = refl

parse-options :
    (i : ℕ) (os : List CliOption) (a : CliArgs)
    → AreCores os
    → parse i (render os) a ≡ some (apply_all os a)
unfolding parse
parse-options i [] a h = refl
parse-options i (host x ∷ os) a h = parse-options (i + 2) os _ h
parse-options i (port p ∷ os) a h = parse-options (i + 2) os _ h
parse-options i (ssl ∷ os) a h = parse-ssl i (render os) a ∙ parse-options (i + 1) os _ h
parse-options i (pin ∷ os) a h = parse-pin i os a ∙ parse-options (i + 1) os _ h
parse-options i (pin_to t core ∷ os) a h = rw (h.0) (parse-options (i + 2) os _ h.1)
parse-options i (reconnect ∷ os) a h =
    parse-reconnect i (render os) a ∙ parse-options (i + 1) os _ h

-- The options are applied one after another.
pub parse_args-apply_all :
    (os : List CliOption) → AreCores os → parse_args (render os) ≡ some (apply_all os default_args)
parse_args-apply_all os h = parse-options 1 os default_args h

-- What the options ask for together: the last host, port and core that are given, or else the
-- defaults; the port that is not given is 443 with `--ssl` and 80 without.
abbrev has_ssl : List CliOption → Bool
has_ssl [] = false
has_ssl (ssl ∷ os) = true
has_ssl (o ∷ os) = has_ssl os

abbrev has_pin : List CliOption → Bool
has_pin [] = false
has_pin (pin ∷ os) = true
has_pin (pin_to t core ∷ os) = true
has_pin (o ∷ os) = has_pin os

abbrev has_reconnect : List CliOption → Bool
has_reconnect [] = false
has_reconnect (reconnect ∷ os) = true
has_reconnect (o ∷ os) = has_reconnect os

abbrev last_host : String → List CliOption → String
last_host h [] = h
last_host h (host x ∷ os) = last_host x os
last_host h (o ∷ os) = last_host h os

abbrev last_port : String → List CliOption → String
last_port p [] = p
last_port p (port x ∷ os) = last_port x os
last_port p (o ∷ os) = last_port p os

abbrev last_core : ℤ → List CliOption → ℤ
last_core c [] = c
last_core c (pin_to t core ∷ os) = last_core core os
last_core c (o ∷ os) = last_core c os

abbrev pub settled : List CliOption → CliArgs
settled os = record {
  host = last_host "echo.websocket.events" os;
  port = last_port (if has_ssl os then "443" else "80") os;
  pin_thread = has_pin os;
  pin_core = last_core (negsuc 0) os;
  auto_reconnect = has_reconnect os;
  use_ssl = has_ssl os;
}

-- No `--port 80` stands before a `--ssl`.
abbrev pub IsClear : List CliOption → Type 0
IsClear [] = Unit
IsClear (port p ∷ os) = ((same p "80" && has_ssl os) ≡ false) × IsClear os
IsClear (o ∷ os) = IsClear os

-- The port that stands in the settings before the options `os`.
abbrev port_after : String → List CliOption → String
port_after p os = last_port (if same p "80" && has_ssl os then "443" else p) os

-- What the options make of the settings `a`.
abbrev settled_after : CliArgs → List CliOption → CliArgs
settled_after a os = record {
  host = last_host a.host os;
  port = port_after a.port os;
  pin_thread = a.pin_thread || has_pin os;
  pin_core = last_core a.pin_core os;
  auto_reconnect = a.auto_reconnect || has_reconnect os;
  use_ssl = a.use_ssl || has_ssl os;
}

or_true : (b : Bool) → (b || true) ≡ true
or_true true = refl
or_true false = refl

or_false : (b : Bool) → (b || false) ≡ b
or_false true = refl
or_false false = refl

apply_all-settled_after :
    (os : List CliOption) (a : CliArgs) → IsClear os → apply_all os a ≡ settled_after a os
apply_all-settled_after [] a h = elim (Bool-cases (same a.port "80")) [
  | inl e ↦ rw (e, or_false a.pin_thread, or_false a.auto_reconnect, or_false a.use_ssl) refl
  | inr e ↦ rw (e, or_false a.pin_thread, or_false a.auto_reconnect, or_false a.use_ssl) refl
]
apply_all-settled_after (host x ∷ os) a h = apply_all-settled_after os _ h
apply_all-settled_after (port p ∷ os) a h = apply_all-settled_after os _ h.1 ∙ rw (h.0) refl
apply_all-settled_after (ssl ∷ os) a h = elim (Bool-cases (same a.port "80")) [
  | inl e ↦ apply_all-settled_after os _ h ∙ rw (e, or_true a.use_ssl) refl
  | inr e ↦ apply_all-settled_after os _ h ∙ rw (e, or_true a.use_ssl) (rw e refl)
]
apply_all-settled_after (pin ∷ os) a h =
    apply_all-settled_after os _ h ∙ rw (or_true a.pin_thread) refl
apply_all-settled_after (pin_to t core ∷ os) a h =
    apply_all-settled_after os _ h ∙ rw (or_true a.pin_thread) refl
apply_all-settled_after (reconnect ∷ os) a h =
    apply_all-settled_after os _ h ∙ rw (or_true a.auto_reconnect) refl

-- Any sequence of the options, in any order and with repetitions, gives the last host, port and core
-- that it names, or else the default, and the flags that occur in it, where the default port is 443
-- with `--ssl` and 80 without; a host or a port may be any text, and `--pin` may come without a core.
-- Left out are the sequences with a `--port 80` before a `--ssl`, where the code takes the port 80 for
-- the default and changes it to 443.
pub parse_args-render :
    (os : List CliOption) → AreCores os → IsClear os → parse_args (render os) ≡ some (settled os)
parse_args-render os h clear =
    parse_args-apply_all os h ∙ ap some (apply_all-settled_after os default_args clear)

-- A text that `parse_args` does not take for an option.
pub record IsPositional (s : String) : Type 0 where
  pub not_host : same s "--host" ≡ false
  pub not_port : same s "--port" ≡ false
  pub not_pin : same s "--pin" ≡ false
  pub not_reconnect : same s "--reconnect" ≡ false
  pub not_ssl : same s "--ssl" ≡ false
  pub not_help : same s "--help" ≡ false
  pub not_h : same s "-h" ≡ false

round-positional :
    (i : ℕ) (s next : String) (a b : CliArgs)
    → IsPositional s
    → single i s a ≡ some b
    → round i s next a ≡ some (false, b)
round-positional i s next a b p e = rw (p.not_host, p.not_port, p.not_pin, e) refl

single-host :
    (h : String)
    → IsPositional h
    → single 1 h default_args ≡ some (record default_args { host = h })
single-host h p = rw (p.not_reconnect, p.not_ssl, p.not_help, p.not_h) refl

single-port :
    (p : String) (a : CliArgs)
    → IsPositional p
    → a.port ≡ "80"
    → single 2 p a ≡ some (record a { port = p })
single-port p a ip e = elim (Bool-cases (same a.host "echo.websocket.events")) [
  | inl on ↦ rw (ip.not_reconnect, ip.not_ssl, ip.not_help, ip.not_h, on, e) refl
  | inr off ↦ rw (ip.not_reconnect, ip.not_ssl, ip.not_help, ip.not_h, off, e) refl
]

-- A positional argument is passed over once it has been stored.
parse-positional :
    (i : ℕ) (s : String) (rest : List String) (a b : CliArgs)
    → IsPositional s
    → single i s a ≡ some b
    → parse i (s ∷ rest) a ≡ parse (i + 1) rest b
unfolding parse
parse-positional i s [] a b p e = rw (p.not_pin, e) refl
parse-positional i s (r ∷ rest) a b p e =
    ap (λ o. resume o (λ x. parse (i + 2) rest x) (λ x. parse (i + 1) (r ∷ rest) x))
      (round-positional i s r a b p e)

-- The first two arguments, if they are no options, are the host and the port, and options may
-- follow.
pub parse_args-positional :
    (h p : String) (os : List CliOption)
    → IsPositional h
    → IsPositional p
    → AreCores os
    → parse_args (h ∷ p ∷ render os)
      ≡ some (apply_all os (record default_args { host = h; port = p }))
parse_args-positional h p os ih ip cores =
    parse-positional 1 h (p ∷ render os) default_args _ ih (single-host h ih)
    ∙ parse-positional 2 p (render os) _ _ ip
        (single-port p (record default_args { host = h }) ip refl)
    ∙ parse-options 3 os _ cores
