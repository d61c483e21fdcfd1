-- ===== src/Manager/Threads/Restarts.antt =====
-- A monitor or a heartbeat that has ended is not started again before `stop()`.
use c_web_socket_client_with.Prelude.{◌≡◌, refl, Bool, true, false, not, ◌&&◌, ℕ, arith}
use c_web_socket_client_with.Manager.{ConnectionConfig}
use c_web_socket_client_with.Manager.Threads.{
  Owner, Worker, Heartbeat, System, constructed, heartbeat_alive, worker_alive,
}
use c_web_socket_client_with.Manager.Threads.Loops.{WorkerStep, HeartbeatStep}
use c_web_socket_client_with.Manager.Threads.Steps.{
  OwnerStep, Step, own, beat, monitor, reconnect, Steps, done, step, drop,
}
use c_web_socket_client_with.Manager.Threads.Invariant.{
  is_starting, Inv, Step-Inv, drop-Inv, reachable-Inv,
}
use c_web_socket_client_with.Manager.Threads.Joins.{has_halted}

-- Until `stop()` has cleared `should_run_`, `monitor_loop` has ended, and so has `heartbeat_loop` if
-- `heartbeat` holds; their threads have not been joined.
pub record Over (heartbeat : Bool) (s : System) : Type 0 where
  pub monitor_over :
      has_halted s.owner ≡ false → (s.monitor_joinable && not (worker_alive s.monitor)) ≡ true
  pub heartbeat_over :
      (heartbeat && not (has_halted s.owner)) ≡ true
      → (s.heartbeat_joinable && not (heartbeat_alive s.heartbeat)) ≡ true
  pub running : is_starting s.owner ≡ false

heartbeat-Over :
    {h : Bool} {s t : System} {o p : Heartbeat}
    → s.heartbeat ≡ o
    → HeartbeatStep s o t p
    → Inv s
    → Over h s
    → Over h (record t { heartbeat = p })
heartbeat-Over q (HeartbeatStep.goes_on e) v w = ground arith
heartbeat-Over q _ v w = ground arith

monitor-Over :
    {h : Bool} {s t : System} {o p : Worker}
    → s.monitor ≡ o
    → WorkerStep s o t p
    → Inv s
    → Over h s
    → Over h (record t { monitor = p })
monitor-Over q (WorkerStep.goes_on e) v w = ground arith
monitor-Over q _ v w = ground arith

reconnect-Over :
    {h : Bool} {s t : System} {o p : Worker}
    → s.reconnect ≡ o
    → WorkerStep s o t p
    → Inv s
    → Over h s
    → Over h (record t { reconnect = p })
reconnect-Over q (WorkerStep.starts_heartbeat e f) v w = ground arith
reconnect-Over q (WorkerStep.starts_monitor e) v w = ground arith
reconnect-Over q _ v w = ground arith

owner-Over :
    {h : Bool} {s t : System} {o p : Owner}
    → s.owner ≡ o
    → OwnerStep s o t p
    → Inv s
    → Over h s
    → Over h (record t { owner = p })
owner-Over q OwnerStep.starts v w = ground arith
owner-Over q _ v w = ground arith

Step-Over : {h : Bool} {s t : System} → Step s t → Inv s → Over h s → Over h t
Step-Over (own c st) v w = owner-Over refl st v w
Step-Over (beat c st) v w = heartbeat-Over refl st v w
Step-Over (monitor c st) v w = monitor-Over refl st v w
Step-Over (reconnect c st) v w = reconnect-Over refl st v w

drop-Over : {h : Bool} {s : System} → Over h s → Over h (record s { running = false })
drop-Over w = ground arith

Steps-Over : {h : Bool} {s t : System} {n : ℕ} → Steps s n t → Inv s → Over h s → Over h t
Steps-Over done v w = w
Steps-Over (step st ss) v w = Steps-Over ss (Step-Inv st v) (Step-Over st v w)
Steps-Over (drop ss) v w = Steps-Over ss (drop-Inv v) (drop-Over w)

-- Once `start()` has started its threads and `monitor_loop` has ended with its thread joinable, no
-- monitor runs again until `stop()` has cleared `should_run_`, whatever the threads do and the
-- connections. Likewise a heartbeat that has ended by then, with its thread joinable, is not started
-- again.
pub not_restarted :
    (c : ConnectionConfig) (s t : System) (m n : ℕ)
    → Steps (constructed c) m s
    → is_starting s.owner ≡ false
    → s.monitor_joinable ≡ true
    → worker_alive s.monitor ≡ false
    → Steps s n t
    → has_halted t.owner ≡ false
    → (worker_alive t.monitor ≡ false)
      × (((s.heartbeat_joinable && not (heartbeat_alive s.heartbeat))
            && heartbeat_alive t.heartbeat)
          ≡ false)
not_restarted c s t m n r p j e ss h =
    let over : Over (s.heartbeat_joinable && not (heartbeat_alive s.heartbeat)) s = record {
      monitor_over = λ g. ground arith;
      heartbeat_over = λ g. ground arith;
      running = p;
    } in
    let w = Steps-Over ss (reachable-Inv c r) over in
    ground (arith, w.monitor_over h, w.heartbeat_over)
