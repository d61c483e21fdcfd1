-- ===== src/Manager/Threads/Agree.antt =====
-- How the two models of ConnectionManager agree: Manager, where one function runs at a time, and
-- Manager.Threads, where the threads interleave.
use c_web_socket_client_with.Prelude.{◌&&◌, []}
use c_web_socket_client_with.Manager.{Manager}
use c_web_socket_client_with.Manager.Threads.{System, heartbeat_alive, worker_alive}
use c_web_socket_client_with.Manager.Threads.Invariant.{is_some}

-- What the model of one function at a time keeps of the threads, without the calls of callbacks.
abbrev pub manager_of : System → Manager
manager_of s = record {
  config = s.config;
  state = s.state;
  should_run = s.should_run;
  reconnect_count = s.reconnect_count;
  client = is_some s.client;
  running = is_some s.client && s.running;
  heartbeat_joinable = s.heartbeat_joinable;
  heartbeat_alive = heartbeat_alive s.heartbeat;
  monitor_joinable = s.monitor_joinable;
  monitor_alive = worker_alive s.monitor;
  reconnect_joinable = s.reconnect_joinable;
  reconnect_alive = worker_alive s.reconnect;
  events = [];
}
