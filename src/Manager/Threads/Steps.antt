-- ===== src/Manager/Threads/Steps.antt =====
-- include/connection_manager.h: the steps of the thread that calls `start()` and `stop()`, and those of
-- all four threads. Each is one access of a shared member and what the thread does up to the next. A
-- call of the client, `connect()`, `send_text()`, `close()` with its join of the receiver, and its
-- destructor, is a step, and so is taken to return; while it runs, the other threads take no step.
use c_web_socket_client_with.Prelude.{ℕ, zero, suc, ◌≡◌, Bool, true, false, none, some}
use c_web_socket_client_with.Manager.{ConnectionState}
use c_web_socket_client_with.Manager.Threads.{
  Owner, Worker, Heartbeat, System, owns, heartbeat_alive, worker_alive, make_client, exceeds,
}
use c_web_socket_client_with.Manager.Threads
use c_web_socket_client_with.Manager.Threads.Loops.{WorkerStep, HeartbeatStep}

-- The steps of the owner: of `start()`, of its use of the pointer that `client()` returns, of `stop()`.
pub data OwnerStep (s : System) : Owner → System → Owner → Type 0 where
  starts : OwnerStep s Owner.fresh (record s { should_run = true }) Owner.opening
  opens : OwnerStep s Owner.opening (record s { state = ConnectionState.connecting }) Owner.making
  makes : OwnerStep s Owner.making (make_client s) Owner.connecting
  connects :
      (n : ℕ)
      → s.client ≡ some n
      → OwnerStep s Owner.connecting (record s { running = true }) Owner.arriving
  throws :
      (n : ℕ)
      → (b : Bool) → s.client ≡ some n
      → OwnerStep s Owner.connecting (record s { running = b }) Owner.failing
  fails : OwnerStep s Owner.failing (record s { client = none }) Owner.branching
  arrives :
      OwnerStep s Owner.arriving (record s { state = ConnectionState.connected }) Owner.clearing
  clears : OwnerStep s Owner.clearing (record s { reconnect_count = 0 }) Owner.starting_heartbeat
  starts_heartbeat :
      s.config.heartbeat_enabled ≡ true
      → OwnerStep s Owner.starting_heartbeat (Threads.spawn_heartbeat s) Owner.starting_monitor
  skips_heartbeat :
      s.config.heartbeat_enabled ≡ false
      → OwnerStep s Owner.starting_heartbeat s Owner.starting_monitor
  starts_monitor : OwnerStep s Owner.starting_monitor (Threads.spawn_monitor s) Owner.outside
  retries :
      s.config.auto_reconnect ≡ true
      → OwnerStep s Owner.branching
          (record s { state = ConnectionState.reconnecting })
          Owner.starting_reconnect
  settles :
      s.config.auto_reconnect ≡ false
      → OwnerStep s Owner.branching
          (record s { state = ConnectionState.disconnected })
          Owner.outside
  starts_reconnect :
      OwnerStep s Owner.starting_reconnect
        (record s { reconnect = Worker.looping; reconnect_joinable = true })
        Owner.outside
  gets_client : (n : ℕ) → s.client ≡ some n → OwnerStep s Owner.outside s (Owner.holding n)
  uses_client : (n : ℕ) → owns s.client n ≡ true → OwnerStep s (Owner.holding n) s (Owner.holding n)
  uses_dead :
      (n : ℕ)
      → owns s.client n ≡ false
      → OwnerStep s (Owner.holding n) (record s { crashed = true }) Owner.outside
  returns : (n : ℕ) → OwnerStep s (Owner.holding n) s Owner.outside
  stops : s.should_run ≡ true → OwnerStep s Owner.outside s Owner.stopping
  announces :
      OwnerStep s Owner.stopping (record s { state = ConnectionState.closing }) Owner.halting
  halts : OwnerStep s Owner.halting (record s { should_run = false }) Owner.testing_client
  has_client : (n : ℕ) → s.client ≡ some n → OwnerStep s Owner.testing_client s Owner.calling_close
  has_none : s.client ≡ none → OwnerStep s Owner.testing_client s Owner.joining_heartbeat
  closes :
      (n : ℕ)
      → s.client ≡ some n
      → OwnerStep s Owner.calling_close (record s { running = false }) (Owner.in_close n)
  closes_null :
      s.client ≡ none
      → OwnerStep s Owner.calling_close (record s { crashed = true }) Owner.joining_heartbeat
  closed :
      (n : ℕ) → owns s.client n ≡ true → OwnerStep s (Owner.in_close n) s Owner.joining_heartbeat
  closes_dead :
      (n : ℕ)
      → owns s.client n ≡ false
      → OwnerStep s (Owner.in_close n) (record s { crashed = true }) Owner.joining_heartbeat
  joins_heartbeat :
      s.heartbeat_joinable ≡ true
      → heartbeat_alive s.heartbeat ≡ false
      → OwnerStep s Owner.joining_heartbeat
          (record s { heartbeat_joinable = false })
          Owner.joining_monitor
  no_heartbeat :
      s.heartbeat_joinable ≡ false → OwnerStep s Owner.joining_heartbeat s Owner.joining_monitor
  joins_monitor :
      s.monitor_joinable ≡ true
      → worker_alive s.monitor ≡ false
      → OwnerStep s Owner.joining_monitor
          (record s { monitor_joinable = false })
          Owner.joining_reconnect
  no_monitor :
      s.monitor_joinable ≡ false → OwnerStep s Owner.joining_monitor s Owner.joining_reconnect
  joins_reconnect :
      s.reconnect_joinable ≡ true
      → worker_alive s.reconnect ≡ false
      → OwnerStep s Owner.joining_reconnect
          (record s { reconnect_joinable = false })
          Owner.finishing
  no_reconnect :
      s.reconnect_joinable ≡ false → OwnerStep s Owner.joining_reconnect s Owner.finishing
  finishes : OwnerStep s Owner.finishing (record s { state = ConnectionState.closed }) Owner.stopped

-- A step of one of the four threads. After a crash there is none.
pub data Step (s : System) : System → Type 0 where
  own :
      {t : System} {p : Owner}
      → s.crashed ≡ false
      → OwnerStep s s.owner t p
      → Step s (record t { owner = p })
  beat :
      {t : System} {p : Heartbeat}
      → s.crashed ≡ false
      → HeartbeatStep s s.heartbeat t p
      → Step s (record t { heartbeat = p })
  monitor :
      {t : System} {p : Worker}
      → s.crashed ≡ false
      → WorkerStep s s.monitor t p
      → Step s (record t { monitor = p })
  reconnect :
      {t : System} {p : Worker}
      → s.crashed ≡ false
      → WorkerStep s s.reconnect t p
      → Step s (record t { reconnect = p })

-- The steps of the program, and how many they are; between them the connection may be lost.
pub data Steps : System → ℕ → System → Type 0 where
  done : {s : System} → Steps s zero s
  step : {s t u : System} {n : ℕ} → Step s t → Steps t n u → Steps s (suc n) u
  drop : {s u : System} {n : ℕ} → Steps (record s { running = false }) n u → Steps s n u

-- A step of the reconnect thread.
pub data ReconnectStep (s : System) : System → Type 0 where
  alone :
      {t : System} {p : Worker}
      → s.crashed ≡ false
      → WorkerStep s s.reconnect t p
      → ReconnectStep s (record t { reconnect = p })

-- Steps of the reconnect thread alone, and how many they are: no other thread takes a step, and the
-- connection is not lost.
pub data ReconnectSteps : System → ℕ → System → Type 0 where
  ready : {s : System} → ReconnectSteps s zero s
  then :
      {s t u : System} {n : ℕ}
      → ReconnectStep s t
      → ReconnectSteps t n u
      → ReconnectSteps s (suc n) u
