-- ===== src/Program/Tests.antt =====
-- Command lines of src/main.cpp with an echoing server, and the theorems at them.
use c_web_socket_client_with.Prelude.{
  ◌≡◌, ◌≢◌, ◌↔◌, refl, true, false, none, some, [], ◌∷◌, arith, ◌≤◌,
}
use c_web_socket_client_with.Args.{default_args}
use c_web_socket_client_with.Args.Options.{ssl}
use c_web_socket_client_with.Manager.{Manager, connects, connect_throws, new, start, is_connected}
use c_web_socket_client_with.Manager.Loops.{Round, returned, reconnect_loop}
use c_web_socket_client_with.Chat.Instance.{Echo, echo, pool_params, pools, idle}
use c_web_socket_client_with.Program.{exits, World, manager_config, await_connected, main}
use c_web_socket_client_with.Program.Wait.{recovers, trying, await_connected_iff}
use c_web_socket_client_with.Program.Selection.{main-reconnect}

-- The server is up for a client of its own; the manager never connects.
abbrev up : World Echo
up = record {
  client = echo;
  ssl_enabled = false;
  plain_connect = λ host port config. some idle;
  secure_connect = λ host port config. none;
  first = connect_throws;
  during = λ i m. m;
  managed = λ m. idle;
  params = pool_params;
  bench = ("bench_0", 1) ∷ [];
  lines = "text" ∷ "hello" ∷ "/exit" ∷ [];
  pools = pools;
}

main-reconnect_example :
    (main up ("--ssl" ∷ "--reconnect" ∷ [])
      ≡ main (record up { ssl_enabled = true }) ("--ssl" ∷ "--reconnect" ∷ []))
    × (main up ("--ssl" ∷ "--reconnect" ∷ []) ≢ exits 1)
main-reconnect_example = main-reconnect up true up.plain_connect up.secure_connect (ssl ∷ []) [] tt

abbrev fails : Round
fails = record { stopped = false; outcome = connect_throws }

abbrev succeeds : Round
succeeds = record { stopped = false; outcome = connects }

await_connected_iff_example :
    (start connect_throws (new (manager_config default_args)) ≡ some (trying default_args))
    × (n : Manager) × (reconnect_loop (fails ∷ fails ∷ succeeds ∷ []) (trying default_args)
        ≡ returned n)
    × ((is_connected (await_connected 100 0 (recovers n) (trying default_args)) ≡ true) ↔ (2 ≤ 5))
await_connected_iff_example =
    await_connected_iff default_args (fails ∷ fails ∷ []) succeeds []
      ((refl, refl), ((refl, refl), tt)) refl refl (omega arith)
