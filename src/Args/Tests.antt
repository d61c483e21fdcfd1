-- ===== src/Args/Tests.antt =====
-- Command lines of src/main.cpp, among them those of its usage text.
use c_web_socket_client_with.Prelude.{◌≡◌, refl, true, none, some, [], ◌∷◌}
use c_web_socket_client_with.Args.{pos, negsuc, default_args, stoi, parse, parse_args}
use c_web_socket_client_with.Args.Options.{
  host, port, ssl, pin, pin_to, reconnect, parse_args-render,
}

parse_args-render_example :
    parse_args (
      "--pin" ∷ " 3x" ∷ "--reconnect" ∷ "--pin" ∷ "--ssl" ∷ "--host" ∷ "localhost" ∷ "--port" ∷ "80"
      ∷ [])
    ≡ some (record default_args {
      host = "localhost";
      port = "80";
      pin_thread = true;
      pin_core = pos 3;
      auto_reconnect = true;
      use_ssl = true;
    })
unfolding stoi
parse_args-render_example =
    parse_args-render
      (pin_to " 3x" (pos 3) ∷ reconnect ∷ pin ∷ ssl ∷ host "localhost" ∷ port "80" ∷ []) (refl, tt)
      (refl, tt)

-- The port 80 that is asked for is taken for the default.
port_80_ssl :
    parse_args ("--port" ∷ "80" ∷ "--ssl" ∷ [])
    ≡ some (record default_args { port = "443"; use_ssl = true })
unfolding parse
port_80_ssl = refl

help : parse_args ("-h" ∷ []) ≡ none
unfolding parse
help = refl

negative_core : stoi "-2" ≡ some (negsuc 1)
unfolding stoi
negative_core = refl
