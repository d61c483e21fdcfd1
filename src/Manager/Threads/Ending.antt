-- ===== src/Manager/Threads/Ending.antt =====
-- How many steps the threads of a ConnectionManager make once `should_run_` is cleared.
use c_web_socket_client_with.Prelude.{
  ◌≡◌, refl, true, false, ◌+◌, ◌≤◌, ◌<◌, ℕ, Bool-cases, inl, inr, arith,
}
use c_web_socket_client_with.Manager.{ConnectionConfig}
use c_web_socket_client_with.Manager.Threads.{
  Owner, Worker, Heartbeat, System, constructed, worker_alive,
}
use c_web_socket_client_with.Manager.Threads.Loops.{WorkerStep, HeartbeatStep}
use c_web_socket_client_with.Manager.Threads.Steps.{
  OwnerStep, Step, own, beat, monitor, reconnect, Steps, done, step, drop,
}
use c_web_socket_client_with.Manager.Threads.Invariant.{Inv, reachable-Inv}
use c_web_socket_client_with.Manager.Threads.Joins.{has_halted, reachable-StopInv}

-- How many steps are left, at most.
abbrev pub owner_left : Owner → ℕ
owner_left Owner.testing_client = 7
owner_left Owner.calling_close = 6
owner_left (Owner.in_close n) = 5
owner_left Owner.joining_heartbeat = 4
owner_left Owner.joining_monitor = 3
owner_left Owner.joining_reconnect = 2
owner_left Owner.finishing = 1
owner_left _ = 0

abbrev pub heartbeat_left : Heartbeat → ℕ
heartbeat_left Heartbeat.unborn = 0
heartbeat_left Heartbeat.testing = 1
heartbeat_left Heartbeat.testing_state = 3
heartbeat_left Heartbeat.sleeping = 2
heartbeat_left Heartbeat.retesting = 1
heartbeat_left Heartbeat.checking = 5
heartbeat_left Heartbeat.asking = 4
heartbeat_left Heartbeat.calling = 3
heartbeat_left (Heartbeat.sending n) = 2
heartbeat_left Heartbeat.ended = 0

abbrev pub worker_left : Worker → ℕ
worker_left Worker.unborn = 0
worker_left Worker.testing = 1
worker_left Worker.sleeping = 2
worker_left Worker.retesting = 1
worker_left Worker.checking = 5
worker_left Worker.asking = 4
worker_left Worker.losing = 3
worker_left Worker.resetting = 2
worker_left Worker.settling = 1
worker_left Worker.looping = 1
worker_left Worker.counting = 10
worker_left Worker.giving_up = 1
worker_left Worker.backing_off = 9
worker_left Worker.making = 8
worker_left Worker.connecting = 7
worker_left Worker.failing = 2
worker_left Worker.arriving = 6
worker_left Worker.clearing = 5
worker_left Worker.starting_heartbeat = 4
worker_left Worker.starting_monitor = 2
worker_left Worker.ended = 0

abbrev pub left : System → ℕ
left s =
    owner_left s.owner
    + heartbeat_left s.heartbeat
    + worker_left s.monitor
    + worker_left s.reconnect

-- `stop()` is past its store of `should_run_`.
abbrev pub IsHalted : System → Type 0
IsHalted s = (s.should_run ≡ false) × (has_halted s.owner ≡ true)

heartbeat-left :
    {s t : System} {o p : Heartbeat}
    → s.heartbeat ≡ o
    → HeartbeatStep s o t p
    → IsHalted s
    → (left (record t { heartbeat = p }) < left s) × IsHalted (record t { heartbeat = p })
heartbeat-left q (HeartbeatStep.goes_on e) z = ground arith
heartbeat-left q (HeartbeatStep.still_runs e) z = ground arith
heartbeat-left q _ z = ground arith

monitor-left :
    {s t : System} {o p : Worker}
    → s.monitor ≡ o
    → WorkerStep s o t p
    → IsHalted s
    → (left (record t { monitor = p }) < left s) × IsHalted (record t { monitor = p })
monitor-left q (WorkerStep.goes_on e) z = ground arith
monitor-left q (WorkerStep.still_runs e) z = ground arith
monitor-left q (WorkerStep.loops e) z = ground arith
monitor-left q _ z = ground arith

reconnect-left :
    {s t : System} {o p : Worker}
    → s.reconnect ≡ o
    → WorkerStep s o t p
    → IsHalted s
    → (left (record t { reconnect = p }) < left s) × IsHalted (record t { reconnect = p })
reconnect-left q (WorkerStep.goes_on e) z = ground arith
reconnect-left q (WorkerStep.still_runs e) z = ground arith
reconnect-left q (WorkerStep.loops e) z = ground arith
reconnect-left q _ z = ground arith

owner-left :
    {s t : System} {o p : Owner}
    → s.owner ≡ o
    → OwnerStep s o t p
    → IsHalted s
    → (left (record t { owner = p }) < left s) × IsHalted (record t { owner = p })
owner-left q OwnerStep.starts z = ground arith
owner-left q _ z = ground arith

pub Step-left : {s t : System} → Step s t → IsHalted s → (left t < left s) × IsHalted t
Step-left (own c st) z = owner-left refl st z
Step-left (beat c st) z = heartbeat-left refl st z
Step-left (monitor c st) z = monitor-left refl st z
Step-left (reconnect c st) z = reconnect-left refl st z

Steps-left : {s t : System} {n : ℕ} → Steps s n t → IsHalted s → n + left t ≤ left s
Steps-left done z = omega arith
Steps-left (step st ss) z = let (l, y) = Step-left st z in omega (arith, l, Steps-left ss y)
Steps-left (drop ss) z = Steps-left ss z

worker_left-le : (o : Worker) → worker_left o ≤ 10
worker_left-le o = ground arith

heartbeat_left-le : (o : Heartbeat) → heartbeat_left o ≤ 5
heartbeat_left-le o = ground arith

owner_left-le : (o : Owner) → owner_left o ≤ 7
owner_left-le o = ground arith

worker_left-zero : (o : Worker) → worker_alive o ≡ false → worker_left o ≡ 0
worker_left-zero o a = ground arith

workers-le : (s : System) → Inv s → worker_left s.monitor + worker_left s.reconnect ≤ 10
workers-le s v = elim (Bool-cases (worker_alive s.reconnect)) [
  | inl a ↦ omega (arith, worker_left-zero s.monitor (v.alone a), worker_left-le s.reconnect)
  | inr a ↦ omega (arith, worker_left-zero s.reconnect a, worker_left-le s.monitor)
]

left-le : (s : System) → Inv s → left s ≤ 22
left-le s v = omega (arith, workers-le s v, heartbeat_left-le s.heartbeat, owner_left-le s.owner)

-- Once `stop()` has stored false to `should_run_`, the four threads make at most 22 more steps
-- together, in whatever order they run, whatever the connections do, and wherever they stood.
pub stop_bounded :
    (c : ConnectionConfig) (s t : System) (m n : ℕ)
    → Steps (constructed c) m s
    → has_halted s.owner ≡ true
    → Steps s n t
    → n ≤ 22
stop_bounded c s t m n r h ss =
    omega
      (arith, Steps-left ss ((reachable-StopInv c r).halted h, h), left-le s (reachable-Inv c r))
