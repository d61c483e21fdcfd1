-- ===== src/Manager/Threads/Invariant.antt =====
-- What holds of a ConnectionManager whenever its threads are between two accesses.
use c_web_socket_client_with.Prelude.{
  ◌≡◌, refl, Bool, true, false, not, ◌&&◌, ℕ, ◌+◌, ◌≤◌, Option, none, some, arith,
}
use c_web_socket_client_with.Manager.{ConnectionConfig}
use c_web_socket_client_with.Manager.Threads.{
  Owner, Worker, Heartbeat, System, constructed, heartbeat_alive, worker_alive,
}
use c_web_socket_client_with.Manager.Threads.Loops.{WorkerStep, HeartbeatStep}
use c_web_socket_client_with.Manager.Threads.Steps.{
  OwnerStep, Step, own, beat, monitor, reconnect, Steps, done, step, drop,
}

abbrev pub is_some : Option ℕ → Bool
is_some none = false
is_some (some n) = true

-- `start()` has not started `monitor_loop` or `reconnect_loop` yet.
abbrev pub is_starting : Owner → Bool
is_starting Owner.outside = false
is_starting (Owner.holding n) = false
is_starting Owner.stopping = false
is_starting Owner.halting = false
is_starting Owner.testing_client = false
is_starting Owner.calling_close = false
is_starting (Owner.in_close n) = false
is_starting Owner.joining_heartbeat = false
is_starting Owner.joining_monitor = false
is_starting Owner.joining_reconnect = false
is_starting Owner.finishing = false
is_starting Owner.stopped = false
is_starting _ = true

abbrev pub is_starting_monitor : Owner → Bool
is_starting_monitor Owner.starting_monitor = true
is_starting_monitor _ = false

-- The thread goes on with the object that `client_` owns.
abbrev pub needs_client : Worker → Bool
needs_client Worker.asking = true
needs_client Worker.connecting = true
needs_client _ = false

pub record Inv (s : System) : Type 0 where
  pub heartbeat_handle : heartbeat_alive s.heartbeat ≡ true → s.heartbeat_joinable ≡ true
  pub monitor_handle : worker_alive s.monitor ≡ true → s.monitor_joinable ≡ true
  pub reconnect_handle : worker_alive s.reconnect ≡ true → s.reconnect_joinable ≡ true
  pub alone : worker_alive s.reconnect ≡ true → worker_alive s.monitor ≡ false
  pub no_monitor : is_starting s.owner ≡ true → s.monitor_joinable ≡ false
  pub no_reconnect : is_starting s.owner ≡ true → s.reconnect_joinable ≡ false
  pub no_heartbeat :
      (is_starting s.owner && not (is_starting_monitor s.owner)) ≡ true
      → s.heartbeat_joinable ≡ false
  pub monitor_client : needs_client s.monitor ≡ true → is_some s.client ≡ true
  pub reconnect_client : needs_client s.reconnect ≡ true → is_some s.client ≡ true

pub constructed-Inv : (c : ConnectionConfig) → Inv (constructed c)
constructed-Inv c = ground arith

heartbeat-Inv :
    {s t : System} {o p : Heartbeat}
    → s.heartbeat ≡ o
    → HeartbeatStep s o t p
    → Inv s
    → Inv (record t { heartbeat = p })
heartbeat-Inv q (HeartbeatStep.goes_on e) v = ground arith
heartbeat-Inv q _ v = ground arith

monitor-Inv :
    {s t : System} {o p : Worker}
    → s.monitor ≡ o
    → WorkerStep s o t p
    → Inv s
    → Inv (record t { monitor = p })
monitor-Inv q (WorkerStep.has_client n e) v = ground arith
monitor-Inv q _ v = ground arith

reconnect-Inv :
    {s t : System} {o p : Worker}
    → s.reconnect ≡ o
    → WorkerStep s o t p
    → Inv s
    → Inv (record t { reconnect = p })
reconnect-Inv q (WorkerStep.has_client n e) v = ground arith
reconnect-Inv q _ v = ground arith

owner-Inv :
    {s t : System} {o p : Owner}
    → s.owner ≡ o
    → OwnerStep s o t p
    → Inv s
    → Inv (record t { owner = p })
owner-Inv q (OwnerStep.joins_heartbeat e f) v = ground arith
owner-Inv q (OwnerStep.joins_monitor e f) v = ground arith
owner-Inv q (OwnerStep.joins_reconnect e f) v = ground arith
owner-Inv q _ v = ground arith

pub Step-Inv : {s t : System} → Step s t → Inv s → Inv t
Step-Inv (own c st) v = owner-Inv refl st v
Step-Inv (beat c st) v = heartbeat-Inv refl st v
Step-Inv (monitor c st) v = monitor-Inv refl st v
Step-Inv (reconnect c st) v = reconnect-Inv refl st v

pub drop-Inv : {s : System} → Inv s → Inv (record s { running = false })
drop-Inv v = ground arith

pub Steps-Inv : {s t : System} {n : ℕ} → Steps s n t → Inv s → Inv t
Steps-Inv done v = v
Steps-Inv (step st ss) v = Steps-Inv ss (Step-Inv st v)
Steps-Inv (drop ss) v = Steps-Inv ss (drop-Inv v)

-- In every state that the threads reach the invariant holds.
pub reachable-Inv : (c : ConnectionConfig) {s : System} {n : ℕ} → Steps (constructed c) n s → Inv s
reachable-Inv c ss = Steps-Inv ss (constructed-Inv c)

abbrev count : Bool → ℕ
count true = 1
count false = 0

-- How many threads are inside the code that writes `client_` and `reconnect_count_` without a lock:
-- `start()`, `monitor_loop` and `reconnect_loop`.
abbrev pub writers : System → ℕ
writers s =
    count (is_starting s.owner) + count (worker_alive s.monitor) + count (worker_alive s.reconnect)

-- At most one thread at a time is inside `start()`, before its start of `monitor_loop` or
-- `reconnect_loop`, or inside one of these two: the code that writes `client_` and
-- `reconnect_count_`, without a lock.
pub writers-le :
    (c : ConnectionConfig) (s : System) (n : ℕ) → Steps (constructed c) n s → writers s ≤ 1
writers-le c s n ss =
    let v = reachable-Inv c ss in ground (arith, v.alone, v.monitor_handle, v.reconnect_handle)
