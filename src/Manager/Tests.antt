-- ===== src/Manager/Tests.antt =====
-- Runs of include/connection_manager.h with the default configuration and with small limits, and the
-- theorems at concrete states.
use c_web_socket_client_with.Prelude.{◌≡◌, refl, inr, true, false, [], ◌∷◌, arith}
use c_web_socket_client_with.Manager.{
  ConnectionConfig, default_config, disconnected, connected, on_connect, on_disconnect,
  on_reconnect, Manager, new, connects, connect_throws,
}
use c_web_socket_client_with.Manager.Loops.{Round, returned, reconnect_loop}
use c_web_socket_client_with.Manager.Retries.{reconnect_loop-gives_up, reconnect_loop-recovers}

abbrev local : ConnectionConfig
local = default_config "localhost" "8765"

-- At most two attempts.
abbrev two_tries : ConnectionConfig
two_tries = record local { max_reconnect_tries = 2 }

abbrev failure : Round
failure = record { stopped = false; outcome = connect_throws }

abbrev success : Round
success = record { stopped = false; outcome = connects }

-- The reconnect thread has been started after a first attempt that failed.
abbrev retrying : ConnectionConfig → Manager
retrying c = record (new c) { should_run = true; reconnect_joinable = true; reconnect_alive = true }

-- Connected, with its monitor and heartbeat threads.
abbrev up : ConnectionConfig → Manager
up c = record (new c) {
  state = connected;
  should_run = true;
  client = true;
  running = true;
  heartbeat_joinable = true;
  heartbeat_alive = true;
  monitor_joinable = true;
  monitor_alive = true;
}

reconnect_loop-gives_up_example :
    (n : Manager) × (reconnect_loop (failure ∷ failure ∷ success ∷ []) (retrying two_tries)
      ≡ returned n)
    × (n.state ≡ disconnected)
    × (n.client ≡ false)
    × (n.should_run ≡ true)
    × (n.reconnect_count ≡ 3)
    × (n.events
        ≡ on_disconnect "max retries exceeded" ∷ on_reconnect 2 200 ∷ on_reconnect 1 100 ∷ [])
reconnect_loop-gives_up_example =
    reconnect_loop-gives_up (retrying two_tries) refl (omega arith) (failure ∷ failure ∷ []) success
      (omega arith) refl ((refl, refl), ((refl, refl), tt)) refl refl refl

reconnect_loop-recovers_example :
    (n : Manager) × (reconnect_loop (failure ∷ success ∷ []) (retrying two_tries) ≡ returned n)
    × (n.state ≡ connected)
    × (n.client ≡ true)
    × (n.running ≡ true)
    × (n.reconnect_count ≡ 0)
    × (n.monitor_joinable ≡ true)
    × (true ≡ true → n.heartbeat_joinable ≡ true)
    × (n.events ≡ on_connect ∷ on_reconnect 2 200 ∷ on_reconnect 1 100 ∷ [])
reconnect_loop-recovers_example =
    reconnect_loop-recovers (retrying two_tries) refl (omega arith) (failure ∷ []) success []
      ((refl, refl), tt) refl refl (inr (omega arith)) refl refl refl

-- The manager of `reconnect_loop-gives_up`, after `stop()`.
abbrev spent : Manager
spent = record (new two_tries) { reconnect_count = 3 }
