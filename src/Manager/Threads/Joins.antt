-- ===== src/Manager/Threads/Joins.antt =====
-- What `stop()` leaves behind.
use c_web_socket_client_with.Prelude.{◌≡◌, refl, Bool, true, false, not, ◌&&◌, ◌||◌, ℕ, arith}
use c_web_socket_client_with.Manager.{ConnectionConfig, ConnectionState}
use c_web_socket_client_with.Manager.Threads.{
  Owner, Worker, Heartbeat, System, constructed, heartbeat_alive, worker_alive,
}
use c_web_socket_client_with.Manager.Threads.Loops.{WorkerStep, HeartbeatStep}
use c_web_socket_client_with.Manager.Threads.Steps.{
  OwnerStep, Step, own, beat, monitor, reconnect, Steps, done, step, drop,
}
use c_web_socket_client_with.Manager.Threads.Invariant.{
  Inv, constructed-Inv, Step-Inv, drop-Inv, reachable-Inv,
}

-- `stop()` is past its join of `reconnect_thread_`, of `monitor_thread_`, of `heartbeat_thread_`, and
-- past its store of `should_run_`.
abbrev pub reconnect_joined : Owner → Bool
reconnect_joined Owner.finishing = true
reconnect_joined Owner.stopped = true
reconnect_joined _ = false

abbrev pub monitor_joined : Owner → Bool
monitor_joined Owner.joining_reconnect = true
monitor_joined p = reconnect_joined p

abbrev pub heartbeat_joined : Owner → Bool
heartbeat_joined Owner.joining_monitor = true
heartbeat_joined p = monitor_joined p

abbrev pub has_halted : Owner → Bool
has_halted Owner.testing_client = true
has_halted Owner.calling_close = true
has_halted (Owner.in_close n) = true
has_halted Owner.joining_heartbeat = true
has_halted p = heartbeat_joined p

abbrev pub is_stopped : Owner → Bool
is_stopped Owner.stopped = true
is_stopped _ = false

-- The thread has not started, has not read `should_run_` yet, or has ended.
abbrev pub is_idle : Worker → Bool
is_idle Worker.unborn = true
is_idle Worker.testing = true
is_idle Worker.ended = true
is_idle _ = false

pub record StopInv (s : System) : Type 0 where
  pub halted : has_halted s.owner ≡ true → s.should_run ≡ false
  pub no_heartbeat : (heartbeat_joined s.owner && s.heartbeat_joinable) ≡ true → s.late ≡ true
  pub no_monitor : (monitor_joined s.owner && s.monitor_joinable) ≡ true → s.late ≡ true
  pub idle : monitor_joined s.owner ≡ true → is_idle s.monitor ≡ true
  pub no_reconnect :
      reconnect_joined s.owner ≡ true → (worker_alive s.reconnect || s.reconnect_joinable) ≡ false
  pub state : is_stopped s.owner ≡ true → s.state ≡ ConnectionState.closed

constructed-StopInv : (c : ConnectionConfig) → StopInv (constructed c)
constructed-StopInv c = ground arith

heartbeat-StopInv :
    {s t : System} {o p : Heartbeat}
    → s.heartbeat ≡ o
    → HeartbeatStep s o t p
    → Inv s
    → StopInv s
    → StopInv (record t { heartbeat = p })
heartbeat-StopInv q (HeartbeatStep.goes_on e) v w = ground arith
heartbeat-StopInv q _ v w = ground arith

monitor-StopInv :
    {s t : System} {o p : Worker}
    → s.monitor ≡ o
    → WorkerStep s o t p
    → Inv s
    → StopInv s
    → StopInv (record t { monitor = p })
monitor-StopInv q (WorkerStep.goes_on e) v w = ground arith
monitor-StopInv q _ v w = ground arith

reconnect-StopInv :
    {s t : System} {o p : Worker}
    → s.reconnect ≡ o
    → WorkerStep s o t p
    → Inv s
    → StopInv s
    → StopInv (record t { reconnect = p })
reconnect-StopInv q (WorkerStep.goes_on e) v w = ground arith
reconnect-StopInv q _ v w = ground arith

owner-StopInv :
    {s t : System} {o p : Owner}
    → s.owner ≡ o
    → OwnerStep s o t p
    → Inv s
    → StopInv s
    → StopInv (record t { owner = p })
owner-StopInv q (OwnerStep.no_heartbeat e) v w = ground arith
owner-StopInv q (OwnerStep.joins_monitor e f) v w = ground arith
owner-StopInv q (OwnerStep.no_monitor e) v w = ground arith
owner-StopInv q (OwnerStep.joins_reconnect e f) v w = ground arith
owner-StopInv q (OwnerStep.no_reconnect e) v w = ground arith
owner-StopInv q _ v w = ground arith

Step-StopInv : {s t : System} → Step s t → Inv s → StopInv s → StopInv t
Step-StopInv (own c st) v w = owner-StopInv refl st v w
Step-StopInv (beat c st) v w = heartbeat-StopInv refl st v w
Step-StopInv (monitor c st) v w = monitor-StopInv refl st v w
Step-StopInv (reconnect c st) v w = reconnect-StopInv refl st v w

drop-StopInv : {s : System} → StopInv s → StopInv (record s { running = false })
drop-StopInv w = ground arith

Steps-StopInv : {s t : System} {n : ℕ} → Steps s n t → Inv s → StopInv s → StopInv t
Steps-StopInv done v w = w
Steps-StopInv (step st ss) v w = Steps-StopInv ss (Step-Inv st v) (Step-StopInv st v w)
Steps-StopInv (drop ss) v w = Steps-StopInv ss (drop-Inv v) (drop-StopInv w)

-- In every state that the threads reach the invariant of `stop()` holds.
pub reachable-StopInv :
    (c : ConnectionConfig) {s : System} {n : ℕ} → Steps (constructed c) n s → StopInv s
reachable-StopInv c ss = Steps-StopInv ss (constructed-Inv c) (constructed-StopInv c)

-- When `stop()` has returned, the state is Closed, `reconnect_loop` has ended and its thread has
-- been joined, and `monitor_loop` runs no more than its test of `should_run_`. If the heartbeat or
-- the monitor is still joinable or alive, so that the destructor ends the program, then some thread
-- has been started after `should_run_` was cleared.
pub stopped_lem :
    (c : ConnectionConfig) (s : System) (n : ℕ)
    → Steps (constructed c) n s
    → s.owner ≡ Owner.stopped
    → (s.state ≡ ConnectionState.closed)
      × ((worker_alive s.reconnect || s.reconnect_joinable) ≡ false)
      × (is_idle s.monitor ≡ true)
      × (((s.heartbeat_joinable || s.monitor_joinable) && not s.late) ≡ false)
      × (((heartbeat_alive s.heartbeat || worker_alive s.monitor) && not s.late) ≡ false)
stopped_lem c s n ss o =
    let v = reachable-Inv c ss in
    let w = reachable-StopInv c ss in
    ground (arith, v.heartbeat_handle, v.monitor_handle, w.no_heartbeat, w.no_monitor, w.idle)
