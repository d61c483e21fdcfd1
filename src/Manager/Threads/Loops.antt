-- ===== src/Manager/Threads/Loops.antt =====
-- include/connection_manager.h: the steps of `monitor_loop`, `reconnect_loop` and `heartbeat_loop`.
-- Each is one access of a shared member and what the thread does up to the next one.
use c_web_socket_client_with.Prelude.{ℕ, ◌+◌, ◌≡◌, Bool, true, false, none, some}
use c_web_socket_client_with.Manager.{ConnectionState, is_connected_state}
use c_web_socket_client_with.Manager.Threads.{
  Owner, Worker, Heartbeat, System, owns, heartbeat_alive, worker_alive, make_client, exceeds,
}
use c_web_socket_client_with.Manager.Threads

-- The steps of a thread that runs `monitor_loop` or `reconnect_loop` and stands at the second
-- argument: the system, and where the thread stands, after the step.
pub data WorkerStep (s : System) : Worker → System → Worker → Type 0 where
  goes_on : s.should_run ≡ true → WorkerStep s Worker.testing s Worker.sleeping
  ends : s.should_run ≡ false → WorkerStep s Worker.testing s Worker.ended
  sleeps : WorkerStep s Worker.sleeping s Worker.retesting
  still_runs : s.should_run ≡ true → WorkerStep s Worker.retesting s Worker.checking
  breaks : s.should_run ≡ false → WorkerStep s Worker.retesting s Worker.ended
  has_client : (n : ℕ) → s.client ≡ some n → WorkerStep s Worker.checking s Worker.asking
  has_none : s.client ≡ none → WorkerStep s Worker.checking s Worker.testing
  is_running :
      (n : ℕ) → s.client ≡ some n → s.running ≡ true → WorkerStep s Worker.asking s Worker.testing
  is_lost :
      (n : ℕ) → s.client ≡ some n → s.running ≡ false → WorkerStep s Worker.asking s Worker.losing
  asks_null :
      s.client ≡ none → WorkerStep s Worker.asking (record s { crashed = true }) Worker.ended
  announces :
      WorkerStep s Worker.losing
        (record s { state = ConnectionState.reconnecting })
        Worker.resetting
  resets :
      s.config.auto_reconnect ≡ true
      → WorkerStep s Worker.resetting (record s { client = none; rewritten = true }) Worker.looping
  resets_for_good :
      s.config.auto_reconnect ≡ false
      → WorkerStep s Worker.resetting (record s { client = none; rewritten = true }) Worker.settling
  settles :
      WorkerStep s Worker.settling (record s { state = ConnectionState.disconnected }) Worker.ended
  loops : s.should_run ≡ true → WorkerStep s Worker.looping s Worker.counting
  leaves : s.should_run ≡ false → WorkerStep s Worker.looping s Worker.ended
  counts :
      exceeds s.config (s.reconnect_count + 1) ≡ false
      → WorkerStep s Worker.counting
          (record s { reconnect_count = s.reconnect_count + 1 })
          Worker.backing_off
  counts_out :
      exceeds s.config (s.reconnect_count + 1) ≡ true
      → WorkerStep s Worker.counting
          (record s { reconnect_count = s.reconnect_count + 1 })
          Worker.giving_up
  gives_up :
      WorkerStep s Worker.giving_up (record s { state = ConnectionState.disconnected }) Worker.ended
  backs_off : WorkerStep s Worker.backing_off s Worker.making
  makes : WorkerStep s Worker.making (record (make_client s) { rewritten = true }) Worker.connecting
  connects :
      (n : ℕ)
      → s.client ≡ some n
      → WorkerStep s Worker.connecting (record s { running = true }) Worker.arriving
  throws :
      (n : ℕ)
      → (b : Bool) → s.client ≡ some n
      → WorkerStep s Worker.connecting (record s { running = b }) Worker.failing
  connects_null :
      s.client ≡ none → WorkerStep s Worker.connecting (record s { crashed = true }) Worker.ended
  fails : WorkerStep s Worker.failing (record s { client = none; rewritten = true }) Worker.looping
  arrives :
      WorkerStep s Worker.arriving (record s { state = ConnectionState.connected }) Worker.clearing
  clears : WorkerStep s Worker.clearing (record s { reconnect_count = 0 }) Worker.starting_heartbeat
  starts_heartbeat :
      s.config.heartbeat_enabled ≡ true
      → s.heartbeat_joinable ≡ false
      → WorkerStep s Worker.starting_heartbeat (Threads.spawn_heartbeat s) Worker.starting_monitor
  skips_heartbeat :
      s.config.heartbeat_enabled ≡ false
      → WorkerStep s Worker.starting_heartbeat s Worker.starting_monitor
  keeps_heartbeat :
      s.heartbeat_joinable ≡ true → WorkerStep s Worker.starting_heartbeat s Worker.starting_monitor
  starts_monitor :
      s.monitor_joinable ≡ false
      → WorkerStep s Worker.starting_monitor (Threads.spawn_monitor s) Worker.ended
  keeps_monitor : s.monitor_joinable ≡ true → WorkerStep s Worker.starting_monitor s Worker.ended

-- The steps of `heartbeat_loop`.
pub data HeartbeatStep (s : System) : Heartbeat → System → Heartbeat → Type 0 where
  goes_on : s.should_run ≡ true → HeartbeatStep s Heartbeat.testing s Heartbeat.testing_state
  ends : s.should_run ≡ false → HeartbeatStep s Heartbeat.testing s Heartbeat.ended
  is_connected :
      is_connected_state s.state ≡ true
      → HeartbeatStep s Heartbeat.testing_state s Heartbeat.sleeping
  is_not_connected :
      is_connected_state s.state ≡ false → HeartbeatStep s Heartbeat.testing_state s Heartbeat.ended
  sleeps : HeartbeatStep s Heartbeat.sleeping s Heartbeat.retesting
  still_runs : s.should_run ≡ true → HeartbeatStep s Heartbeat.retesting s Heartbeat.checking
  breaks : s.should_run ≡ false → HeartbeatStep s Heartbeat.retesting s Heartbeat.ended
  has_client : (n : ℕ) → s.client ≡ some n → HeartbeatStep s Heartbeat.checking s Heartbeat.asking
  has_none : s.client ≡ none → HeartbeatStep s Heartbeat.checking s Heartbeat.ended
  is_running :
      (n : ℕ)
      → s.client ≡ some n
      → s.running ≡ true
      → HeartbeatStep s Heartbeat.asking s Heartbeat.calling
  is_lost :
      (n : ℕ)
      → s.client ≡ some n
      → s.running ≡ false
      → HeartbeatStep s Heartbeat.asking s Heartbeat.ended
  asks_null :
      s.client ≡ none
      → HeartbeatStep s Heartbeat.asking (record s { crashed = true }) Heartbeat.ended
  calls : (n : ℕ) → s.client ≡ some n → HeartbeatStep s Heartbeat.calling s (Heartbeat.sending n)
  calls_null :
      s.client ≡ none
      → HeartbeatStep s Heartbeat.calling (record s { crashed = true }) Heartbeat.ended
  sends :
      (n : ℕ) → owns s.client n ≡ true → HeartbeatStep s (Heartbeat.sending n) s Heartbeat.testing
  send_throws :
      (n : ℕ) → owns s.client n ≡ true → HeartbeatStep s (Heartbeat.sending n) s Heartbeat.ended
  sends_dead :
      (n : ℕ)
      → owns s.client n ≡ false
      → HeartbeatStep s (Heartbeat.sending n) (record s { crashed = true }) Heartbeat.ended
