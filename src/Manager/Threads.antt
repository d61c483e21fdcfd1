-- ===== src/Manager/Threads.antt =====
-- include/connection_manager.h: ConnectionManager as its threads run: the one that calls `start()` and
-- `stop()`, `heartbeat_loop`, `monitor_loop` and `reconnect_loop`, one access of a shared member after
-- another. The lengths of the sleeps and the callbacks are left out.
pub mod Loops
pub mod Steps
pub mod Invariant
pub mod Joins
pub mod Objects
pub mod Progress
pub mod Ending
pub mod Restarts
pub mod Agree
pub mod Equations
pub mod Rounds
mod Tests
use c_web_socket_client_with.Prelude.{
  ℕ, ◌+◌, ◌<◌, ◌≡◌, Bool, true, false, not, Option, none, some, ◌&&◌, ◌||◌, ◌==◌, ltb,
}
use c_web_socket_client_with.Manager.{ConnectionConfig, ConnectionState, disconnected}

-- Where the thread that owns the manager stands: before `start()`; in it, before the stores of
-- `should_run_` and `state_`, in `try_connect`, and before what follows it; between the two calls,
-- with or without a pointer that `client()` returned; in `stop()`, before each of its statements;
-- and after it.
pub data Owner : Type 0 where
  fresh : Owner
  opening : Owner
  making : Owner
  connecting : Owner
  failing : Owner
  arriving : Owner
  clearing : Owner
  starting_heartbeat : Owner
  starting_monitor : Owner
  branching : Owner
  starting_reconnect : Owner
  outside : Owner
  holding : (object : ℕ) → Owner
  stopping : Owner
  halting : Owner
  testing_client : Owner
  calling_close : Owner
  in_close : (object : ℕ) → Owner
  joining_heartbeat : Owner
  joining_monitor : Owner
  joining_reconnect : Owner
  finishing : Owner
  stopped : Owner

-- Where a thread that runs `monitor_loop` or `reconnect_loop` stands; the former calls the latter.
pub data Worker : Type 0 where
  unborn : Worker
  testing : Worker
  sleeping : Worker
  retesting : Worker
  checking : Worker
  asking : Worker
  losing : Worker
  resetting : Worker
  settling : Worker
  looping : Worker
  counting : Worker
  giving_up : Worker
  backing_off : Worker
  making : Worker
  connecting : Worker
  failing : Worker
  arriving : Worker
  clearing : Worker
  starting_heartbeat : Worker
  starting_monitor : Worker
  ended : Worker

-- Where `heartbeat_loop` stands.
pub data Heartbeat : Type 0 where
  unborn : Heartbeat
  testing : Heartbeat
  testing_state : Heartbeat
  sleeping : Heartbeat
  retesting : Heartbeat
  checking : Heartbeat
  asking : Heartbeat
  calling : Heartbeat
  sending : (object : ℕ) → Heartbeat
  ended : Heartbeat

-- The client objects are numbered as `std::make_unique` makes them: `client` is the object that
-- `client_` owns, `made` the number of the next one. `running` is what `is_running()` of the object
-- returns. `crashed`, `late` and `rewritten` are no part of the code: a thread has used an object that
-- `client_` does not own; one has been started after `should_run_` was cleared; `monitor_loop` or
-- `reconnect_loop` has written `client_`.
pub record System : Type 0 where
  pub config : ConnectionConfig
  pub state : ConnectionState
  pub should_run : Bool
  pub reconnect_count : ℕ
  pub client : Option ℕ
  pub made : ℕ
  pub running : Bool
  pub owner : Owner
  pub heartbeat : Heartbeat
  pub heartbeat_joinable : Bool
  pub monitor : Worker
  pub monitor_joinable : Bool
  pub reconnect : Worker
  pub reconnect_joinable : Bool
  pub crashed : Bool
  pub late : Bool
  pub rewritten : Bool

-- After the constructor.
abbrev pub constructed : ConnectionConfig → System
constructed config = record {
  config = config;
  state = disconnected;
  should_run = false;
  reconnect_count = 0;
  client = none;
  made = 0;
  running = false;
  owner = Owner.fresh;
  heartbeat = Heartbeat.unborn;
  heartbeat_joinable = false;
  monitor = Worker.unborn;
  monitor_joinable = false;
  reconnect = Worker.unborn;
  reconnect_joinable = false;
  crashed = false;
  late = false;
  rewritten = false;
}

-- `client_` owns the object.
abbrev pub owns : Option ℕ → ℕ → Bool
owns none n = false
owns (some m) n = m == n

abbrev pub heartbeat_alive : Heartbeat → Bool
heartbeat_alive Heartbeat.unborn = false
heartbeat_alive Heartbeat.ended = false
heartbeat_alive _ = true

abbrev pub worker_alive : Worker → Bool
worker_alive Worker.unborn = false
worker_alive Worker.ended = false
worker_alive _ = true

-- `client_ = std::make_unique<WebSocketClient>(…)`.
abbrev pub make_client : System → System
make_client s = record s { client = some s.made; made = s.made + 1; running = false }

-- `heartbeat_thread_ = std::thread(…)`.
abbrev pub spawn_heartbeat : System → System
spawn_heartbeat s = record s {
  heartbeat = Heartbeat.testing;
  heartbeat_joinable = true;
  late = s.late || not s.should_run;
}

-- `monitor_thread_ = std::thread(…)`.
abbrev pub spawn_monitor : System → System
spawn_monitor s = record s {
  monitor = Worker.testing;
  monitor_joinable = true;
  late = s.late || not s.should_run;
}

-- `config_.max_reconnect_tries > 0 && reconnect_count_ > config_.max_reconnect_tries`.
abbrev pub exceeds : ConnectionConfig → ℕ → Bool
exceeds c n = ltb 0 c.max_reconnect_tries && ltb c.max_reconnect_tries n
