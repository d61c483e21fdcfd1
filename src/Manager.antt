-- ===== src/Manager.antt =====
-- include/connection_manager.h: ConnectionManager. The functions that its threads run take what the
-- outside decides, round by round: whether a connection succeeds, and whether another thread calls
-- `stop()` or the connection is lost during a sleep. Console output is left out.
pub mod Loops
pub mod Backoff
pub mod Retries
pub mod Lifecycle
pub mod Restart
pub mod Threads
mod Tests
use Prim.Native.String.{String}
use c_web_socket_client_with.Prelude.{
  ℕ, ◌+◌, ◌*◌, ◌/◌, ◌^◌, Bool, true, false, not, Option, none, some, List, [], ◌∷◌, ◌&&◌, ◌||◌,
  ◌==◌, ltb, if◌then◌else◌, min, ◌>>=◌,
}

-- The fields that the manager reads. `max_reconnect_tries` below 0 acts as 0, unlimited. The
-- multiplier, a double, is the fraction `multiplier_num / multiplier_den`.
pub record ConnectionConfig : Type 0 where
  pub host : String
  pub port : String
  pub auto_reconnect : Bool
  pub max_reconnect_tries : ℕ
  pub initial_backoff_ms : ℕ
  pub max_backoff_ms : ℕ
  pub multiplier_num : ℕ
  pub multiplier_den : ℕ
  pub heartbeat_enabled : Bool

-- The default member initialisers.
abbrev pub default_config : String → String → ConnectionConfig
default_config host port = record {
  host = host;
  port = port;
  auto_reconnect = true;
  max_reconnect_tries = 10;
  initial_backoff_ms = 100;
  max_backoff_ms = 30000;
  multiplier_num = 2;
  multiplier_den = 1;
  heartbeat_enabled = true;
}

pub data ConnectionState : Type 0 where
  disconnected connecting connected reconnecting closing closed : ConnectionState

abbrev pub to_string : ConnectionState → String
to_string disconnected = "DISCONNECTED"
to_string connecting = "CONNECTING"
to_string connected = "CONNECTED"
to_string reconnecting = "RECONNECTING"
to_string closing = "CLOSING"
to_string closed = "CLOSED"

-- A call of a callback that has been registered.
pub data Event : Type 0 where
  on_connect : Event
  on_disconnect : (reason : String) → Event
  on_reconnect : (attempt backoff_ms : ℕ) → Event

-- `client` says that `client_` is not null, `running` what its `is_running()` returns. Of each
-- thread: whether its std::thread is joinable, and whether its function has not returned yet.
-- `events` holds the calls of the three callbacks, the last one first.
pub record Manager : Type 0 where
  pub config : ConnectionConfig
  pub state : ConnectionState
  pub should_run : Bool
  pub reconnect_count : ℕ
  pub client : Bool
  pub running : Bool
  pub heartbeat_joinable : Bool
  pub heartbeat_alive : Bool
  pub monitor_joinable : Bool
  pub monitor_alive : Bool
  pub reconnect_joinable : Bool
  pub reconnect_alive : Bool
  pub events : List Event

-- The constructor.
abbrev pub new : ConnectionConfig → Manager
new config = record {
  config = config;
  state = disconnected;
  should_run = false;
  reconnect_count = 0;
  client = false;
  running = false;
  heartbeat_joinable = false;
  heartbeat_alive = false;
  monitor_joinable = false;
  monitor_alive = false;
  reconnect_joinable = false;
  reconnect_alive = false;
  events = [];
}

abbrev pub set_state : ConnectionState → Manager → Manager
set_state s m = record m { state = s }

abbrev pub emit : Event → Manager → Manager
emit e m = record m { events = e ∷ m.events }

-- How `client_->connect()` and the call of `on_connect_` end.
pub data Outcome : Type 0 where
  connects : Outcome
  connect_throws : Outcome
  callback_throws : Outcome

unfoldable pub try_connect : Outcome → Manager → Bool × Manager
try_connect connects m = (true, emit on_connect (record m { client = true; running = true }))
try_connect connect_throws m = (false, record m { client = false; running = false })
try_connect callback_throws m =
    (false, emit on_connect (record m { client = false; running = false }))

-- Assigning a new thread to a std::thread that is joinable ends the program: `none`.
abbrev pub spawn_heartbeat : Manager → Option Manager
spawn_heartbeat m =
    if m.heartbeat_joinable
    then none
    else some (record m { heartbeat_joinable = true; heartbeat_alive = true })

abbrev pub spawn_monitor : Manager → Option Manager
spawn_monitor m =
    if m.monitor_joinable
    then none
    else some (record m { monitor_joinable = true; monitor_alive = true })

abbrev pub spawn_reconnect : Manager → Option Manager
spawn_reconnect m =
    if m.reconnect_joinable
    then none
    else some (record m { reconnect_joinable = true; reconnect_alive = true })

-- `start()` up to its return; the threads that it starts run by the functions below.
unfoldable pub start : Outcome → Manager → Option Manager
unfolding try_connect
start o m =
    let (ok, n) = try_connect o (set_state connecting (record m { should_run = true })) in
    if ok
    then (do
      let c = record (set_state connected n) { reconnect_count = 0 }
      h ← (if c.config.heartbeat_enabled then spawn_heartbeat c else some c)
      spawn_monitor h)
    else if n.config.auto_reconnect
    then spawn_reconnect (set_state reconnecting n)
    else some (set_state disconnected n)

-- The part of `stop()` before the joins, as another thread sees it.
abbrev pub stop_requested : Manager → Manager
stop_requested m =
    if m.should_run then record (set_state closing m) { should_run = false; running = false } else m

-- `stop()` where the threads that it joins do no more than return.
unfoldable pub stop : Manager → Manager
stop m =
    if m.should_run
    then set_state closed (record (stop_requested m) {
      heartbeat_joinable = false;
      heartbeat_alive = false;
      monitor_joinable = false;
      monitor_alive = false;
      reconnect_joinable = false;
      reconnect_alive = false;
    })
    else m

-- The destructor: `stop()`, and the end of the members. The end of a std::thread that is joinable ends
-- the program: `none`.
unfoldable pub destroy : Manager → Option Manager
unfolding stop
destroy m =
    let n = stop m in
    if n.heartbeat_joinable || n.monitor_joinable || n.reconnect_joinable then none else some n

abbrev pub is_connected_state : ConnectionState → Bool
is_connected_state connected = true
is_connected_state _ = false

abbrev pub is_connected : Manager → Bool
is_connected m = is_connected_state m.state
